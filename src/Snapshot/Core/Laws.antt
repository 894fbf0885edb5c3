-- ===== src/Snapshot/Core/Laws.antt =====
-- Which inputs pass validate_core, and that the rules that it hands on are well typed.
use bardi.Prelude.{
  ◌≡◌, refl, ◌∙◌, inl, inr, String, Bool, true, false, not, ◌&&◌, ◌||◌, List, [], ◌∷◌, ◌++◌,
  is_empty, is_some, all, str_eq, eqb, Bool-cases, if◌then◌else◌, arith, eq_iff, ◌+++◌,
}
use bardi.KeySet
use bardi.KeySet.{KeySet}
use bardi.Dict
use bardi.Dict.{Dict}
use bardi.Facts.{Definitions, FactDefinition}
use bardi.Rules.{Predicate}
use bardi.Rules.Validation.{validate_rule_v1}
use bardi.Snapshot.{Library, StoredRuleLoadDiagnostic, Outcome}
use bardi.Snapshot.Stages.{is_loaded, is_empty-append, raise_failures-is_loaded}
use bardi.Snapshot.Stages.{next_failures, after}
use bardi.Snapshot.Rows.{CandidateRow, VersionRow, ContradictionRow, QuestionRow, CoreInputs}
use bardi.Snapshot.Claims.{
  decoded_as, decode, checklist_item_outcome, step_outcome, fee_outcome, warning_outcome,
}
use bardi.Snapshot.Core.{
  is_foreign_derived, fact_outcome, is_active, unpublished, declared_for, resolved_for,
  service_definitions, pair_eq, candidate_outcome, version_outcome, contradiction_outcome,
  question_outcome, validate_core,
}
use bardi.Snapshot.Core.Rows.{
  decodes, decoded_as-is_some, is_valid_checklist_item, checklist_item_outcome-is_valid,
  is_valid_step, step_outcome-is_valid, is_valid_fee, fee_outcome-is_valid, is_valid_warning,
  warning_outcome-is_valid,
}

-- Every key has a published definition.
abbrev pub are_published : Definitions → List String → Bool
are_published published keys = all (λ key. is_some (Dict.get published key)) keys

member-keys :
    (m : Definitions) (k : String) → KeySet.member k (Dict.keys m) ≡ is_some (Dict.get m k)
unfolding Dict.keys Dict.get KeySet.member
member-keys [] k = refl
member-keys ((j, d) ∷ m) k = ground (arith, KeySet.member-add k j (Dict.keys m), member-keys m k)

all-add : (p : String → Bool) (k : String) (s : KeySet) → all p (KeySet.add k s) ≡ (p k && all p s)
unfolding KeySet.add
all-add p k [] = refl
all-add p k (j ∷ s) = ground (arith, eq_iff j k, all-add p k s)

all-union : (p : String → Bool) (xs s : KeySet) → all p (KeySet.union xs s) ≡ (all p xs && all p s)
unfolding KeySet.union
all-union p [] s = refl
all-union p (x ∷ xs) s = ground (arith, all-add p x (KeySet.union xs s), all-union p xs s)

is_empty-difference :
    (published : Definitions) (s : KeySet)
    → is_empty (KeySet.difference s (Dict.keys published)) ≡ are_published published s
unfolding KeySet.difference
is_empty-difference published [] = refl
is_empty-difference published (k ∷ s) =
    ground (arith, member-keys published k, is_empty-difference published s)

and_true : (b : Bool) → (b && true) ≡ b
and_true true = refl
and_true false = refl

empty_if : (d : StoredRuleLoadDiagnostic) (b : Bool) → is_empty (if b then [] else d ∷ []) ≡ b
empty_if d true = refl
empty_if d false = refl

is_empty-unpublished :
    (published : Definitions) (owner : String) (keys : List String)
    → is_empty (unpublished published owner keys) ≡ are_published published keys
unfolding unpublished KeySet.of_list
is_empty-unpublished published owner keys =
    let p = λ (key : String). is_some (Dict.get published key) in
    let q : is_empty (KeySet.difference (KeySet.of_list keys) (Dict.keys published))
        ≡ are_published published keys =
      is_empty-difference published (KeySet.of_list keys)
      ∙ (all-union p keys [] ∙ and_true (all p keys)) in
    empty_if _ _ ∙ q

fact_outcome-is_pinned :
    (fact : FactDefinition) → is_empty (fact_outcome fact).reported ≡ not (is_foreign_derived fact)
unfolding fact_outcome
fact_outcome-is_pinned fact = elim (Bool-cases (is_foreign_derived fact)) [
  | inl e ↦ rw e refl
  | inr e ↦ rw e refl
]

contradiction_reported :
    (o : Outcome String Predicate) (missing : List StoredRuleLoadDiagnostic)
    (decoded active published : Bool)
    → is_empty o.reported ≡ decoded
    → is_some o.entry ≡ decoded
    → is_empty missing ≡ published
    → is_empty
        (if is_some o.entry && active
          then record o { reported = o.reported ++ missing }
          else o).reported
      ≡ (decoded && (not active || published))
contradiction_reported o missing decoded active published silent entered m =
    ground (arith, is_empty-append o.reported missing)

module _ (library : Library) (inputs : CoreInputs) where
  abbrev pub is_valid_candidate : CandidateRow → Bool
  is_valid_candidate row =
      decodes library (service_definitions library inputs row.service_semantic_id)
        row.selection_predicate

  candidate_outcome-is_valid :
      (row : CandidateRow)
      → is_empty (candidate_outcome library inputs row).reported ≡ is_valid_candidate row
  unfolding candidate_outcome decode
  candidate_outcome-is_valid row =
      let r =
        validate_rule_v1 library.dates row.selection_predicate
          (service_definitions library inputs row.service_semantic_id) in
      (decoded_as-is_some _ r.diagnostics r.predicate
        (row.service_semantic_id, row.procedure_semantic_id) (λ p. p)).0

  abbrev pub is_valid_version : VersionRow → Bool
  is_valid_version row = decodes library inputs.published_definitions row.applicability

  version_outcome-is_valid :
      (row : VersionRow)
      → is_empty (version_outcome library inputs row).reported ≡ is_valid_version row
  unfolding version_outcome decode
  version_outcome-is_valid row =
      let r = validate_rule_v1 library.dates row.applicability inputs.published_definitions in
      (decoded_as-is_some _ r.diagnostics r.predicate row.semantic_id (λ p. p)).0

  abbrev pub is_valid_contradiction : ContradictionRow → Bool
  is_valid_contradiction row =
      decodes library (service_definitions library inputs row.service_semantic_id) row.condition
      && (not (is_active inputs.services row.service_semantic_id)
          || are_published inputs.published_definitions
              (declared_for inputs.contradiction_facts row.semantic_id))

  contradiction_outcome-is_valid :
      (row : ContradictionRow)
      → is_empty (contradiction_outcome library inputs row).reported ≡ is_valid_contradiction row
  unfolding contradiction_outcome decode
  contradiction_outcome-is_valid row =
      let service = row.service_semantic_id in
      let owner = "contradiction:" +++ row.semantic_id in
      let r =
        validate_rule_v1 library.dates row.condition (service_definitions library inputs service) in
      let keys = declared_for inputs.contradiction_facts row.semantic_id in
      let o : Outcome String Predicate =
        decoded_as owner r.diagnostics r.predicate row.semantic_id (λ p. p) in
      let (silent, entered) =
        decoded_as-is_some owner r.diagnostics r.predicate row.semantic_id (λ p. p) in
      let missing = unpublished inputs.published_definitions owner keys in
      contradiction_reported o missing (is_some r.predicate) (is_active inputs.services service)
        (are_published inputs.published_definitions keys) silent entered
        (is_empty-unpublished inputs.published_definitions owner keys)

  abbrev pub is_valid_question : QuestionRow → Bool
  is_valid_question row =
      not (is_active inputs.services row.service_semantic_id)
      || are_published inputs.published_definitions
          (row.fact_key ∷ resolved_for inputs.question_facts row.semantic_id)

  question_outcome-is_valid :
      (row : QuestionRow)
      → is_empty (question_outcome library inputs row).reported ≡ is_valid_question row
  unfolding question_outcome
  question_outcome-is_valid row =
      let keys = row.fact_key ∷ resolved_for inputs.question_facts row.semantic_id in
      let q =
        is_empty-unpublished inputs.published_definitions ("question:" +++ row.semantic_id) keys in
      elim (Bool-cases (is_active inputs.services row.service_semantic_id)) [
        | inl e ↦ rw e q
        | inr e ↦ rw e refl
      ]

  -- Every row of every table passes, and every derived Fact that is published is a pinned one.
  pub is_valid_core : Bool
  is_valid_core =
      ((((((((all (λ fact. not (is_foreign_derived fact)) (Dict.values inputs.published_definitions)
                      && all
                          (is_valid_checklist_item library inputs.published_definitions
                            inputs.evidence)
                          inputs.checklist_items)
                    && all (is_valid_step library inputs.published_definitions inputs.evidence)
                        inputs.steps)
                  && all (is_valid_fee library inputs.published_definitions inputs.evidence)
                      inputs.fees)
                && all (is_valid_warning library inputs.published_definitions inputs.evidence)
                    inputs.warnings)
              && all is_valid_candidate inputs.candidates)
            && all is_valid_version inputs.versions)
          && all is_valid_contradiction inputs.contradictions)
        && all is_valid_question inputs.questions)

  -- The core stage loads exactly if every row is valid: no failure of one row hides that of another.
  pub validate_core-is_valid_core : is_loaded (validate_core library inputs) ≡ is_valid_core
  unfolding validate_core is_valid_core
  validate_core-is_valid_core =
      let published = inputs.published_definitions in
      let evidence = inputs.evidence in
      let facts = next_failures str_eq fact_outcome [] (Dict.values published) in
      let facts_pass = all (λ fact. not (is_foreign_derived fact)) (Dict.values published) in
      let facts_silent : is_empty facts ≡ facts_pass =
        after str_eq fact_outcome [] true (Dict.values published)
          (λ fact. not (is_foreign_derived fact)) fact_outcome-is_pinned refl in
      let items =
        next_failures eqb (checklist_item_outcome library published evidence) facts
          inputs.checklist_items in
      let items_pass =
        facts_pass
        && all (is_valid_checklist_item library published evidence) inputs.checklist_items in
      let items_silent : is_empty items ≡ items_pass =
        after eqb (checklist_item_outcome library published evidence) facts facts_pass
          inputs.checklist_items (is_valid_checklist_item library published evidence)
          (checklist_item_outcome-is_valid library published evidence) facts_silent in
      let steps = next_failures eqb (step_outcome library published evidence) items inputs.steps in
      let steps_pass = items_pass && all (is_valid_step library published evidence) inputs.steps in
      let steps_silent : is_empty steps ≡ steps_pass =
        after eqb (step_outcome library published evidence) items items_pass inputs.steps
          (is_valid_step library published evidence)
          (step_outcome-is_valid library published evidence) items_silent in
      let fees = next_failures eqb (fee_outcome library published evidence) steps inputs.fees in
      let fees_pass = steps_pass && all (is_valid_fee library published evidence) inputs.fees in
      let fees_silent : is_empty fees ≡ fees_pass =
        after eqb (fee_outcome library published evidence) steps steps_pass inputs.fees
          (is_valid_fee library published evidence)
          (fee_outcome-is_valid library published evidence) steps_silent in
      let warnings =
        next_failures eqb (warning_outcome library published evidence) fees inputs.warnings in
      let warnings_pass =
        fees_pass && all (is_valid_warning library published evidence) inputs.warnings in
      let warnings_silent : is_empty warnings ≡ warnings_pass =
        after eqb (warning_outcome library published evidence) fees fees_pass inputs.warnings
          (is_valid_warning library published evidence)
          (warning_outcome-is_valid library published evidence) fees_silent in
      let candidates =
        next_failures pair_eq (candidate_outcome library inputs) warnings inputs.candidates in
      let candidates_pass = warnings_pass && all is_valid_candidate inputs.candidates in
      let candidates_silent : is_empty candidates ≡ candidates_pass =
        after pair_eq (candidate_outcome library inputs) warnings warnings_pass inputs.candidates
          is_valid_candidate candidate_outcome-is_valid warnings_silent in
      let versions =
        next_failures str_eq (version_outcome library inputs) candidates inputs.versions in
      let versions_pass = candidates_pass && all is_valid_version inputs.versions in
      let versions_silent : is_empty versions ≡ versions_pass =
        after str_eq (version_outcome library inputs) candidates candidates_pass inputs.versions
          is_valid_version version_outcome-is_valid candidates_silent in
      let contradictions =
        next_failures str_eq (contradiction_outcome library inputs) versions
          inputs.contradictions in
      let contradictions_pass = versions_pass && all is_valid_contradiction inputs.contradictions in
      let contradictions_silent : is_empty contradictions ≡ contradictions_pass =
        after str_eq (contradiction_outcome library inputs) versions versions_pass
          inputs.contradictions is_valid_contradiction contradiction_outcome-is_valid
          versions_silent in
      let questions =
        next_failures str_eq (question_outcome library inputs) contradictions inputs.questions in
      let questions_pass = contradictions_pass && all is_valid_question inputs.questions in
      let questions_silent : is_empty questions ≡ questions_pass =
        after str_eq (question_outcome library inputs) contradictions contradictions_pass
          inputs.questions is_valid_question question_outcome-is_valid contradictions_silent in
      raise_failures-is_loaded questions _ ∙ questions_silent
