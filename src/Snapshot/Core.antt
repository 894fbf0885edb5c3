-- ===== src/Snapshot/Core.antt =====
-- backend/knowledge/snapshot_policy.py: validate_core, the other rows and the whole stage.
pub mod Rows
pub mod Laws
pub mod Typed
use bardi.Prelude.{
  ℕ, String, Bool, true, false, not, ◌&&◌, ◌||◌, Option, none, some, List, [], ◌∷◌, ◌++◌, map, any,
  all, eqb, is_empty, is_some, some_and, none_or, str_eq, ◌+++◌, one_of, int_eq, ℤ, if◌then◌else◌,
}
use bardi.KeySet
use bardi.Dict
use bardi.Facts.{FactKind, FactDefinition, Definitions, PathSegment, ValidationDiagnostic}
use bardi.Facts.Registry.{fact_definitions}
use bardi.Rules.{Predicate}
use bardi.Rules.Validation.{RuleValidationResult, validate_rule_v1}
use bardi.Snapshot.{
  Library, StoredRuleLoadDiagnostic, Outcome, Stage, Loaded, Table, failure, each_row,
  raise_failures,
}
use bardi.Snapshot.Claims.{
  decode, checklist_item_outcome, step_outcome, fee_outcome, warning_outcome,
}
use bardi.Snapshot.Rows.{
  ServiceRow, CandidateRow, VersionRow, ContradictionRow, ContradictionFactRow, QuestionRow,
  QuestionFactRow, CoreInputs, DecodedCoreRules,
}

abbrev kind_eq : FactKind → FactKind → Bool
kind_eq FactKind.enum FactKind.enum = true
kind_eq FactKind.integer FactKind.integer = true
kind_eq FactKind.boolean FactKind.boolean = true
kind_eq FactKind.date FactKind.date = true
kind_eq FactKind.string FactKind.string = true
kind_eq _ _ = false

abbrev bool_eq : Bool → Bool → Bool
bool_eq a b = if a then b else not b

abbrev texts_eq : List String → List String → Bool
texts_eq [] [] = true
texts_eq (a ∷ xs) (b ∷ ys) = str_eq a b && texts_eq xs ys
texts_eq _ _ = false

abbrev minimum_eq : Option ℤ → Option ℤ → Bool
minimum_eq none none = true
minimum_eq (some m) (some n) = int_eq m n
minimum_eq _ _ = false

-- `==` of two Fact definitions.
unfoldable pub definition_eq : FactDefinition → FactDefinition → Bool
definition_eq a b =
    str_eq a.key b.key
    && (kind_eq a.kind b.kind
        && (texts_eq a.enum_values b.enum_values
            && (minimum_eq a.minimum b.minimum && bool_eq a.derived b.derived)))

-- A derived Fact that is not the one of the registry.
unfoldable pub is_foreign_derived : FactDefinition → Bool
unfolding definition_eq
is_foreign_derived fact =
    fact.derived
    && not (some_and (λ pinned. definition_eq fact pinned) (Dict.get fact_definitions fact.key))

unfoldable pub fact_outcome : FactDefinition → Outcome String Predicate
unfolding is_foreign_derived
fact_outcome fact =
    if is_foreign_derived fact
    then record {
      entry = none;
      reported =
          failure ("fact:" +++ fact.key) "unsupported_derived_fact"
            (PathSegment.name "facts" ∷ PathSegment.name fact.key ∷ [])
          ∷ [];
    }
    else record { entry = none; reported = [] }

-- `service in active`
unfoldable pub is_active : List ServiceRow → String → Bool
is_active services service = any (λ row. row.is_active && str_eq row.semantic_id service) services

-- `unpublished`: the keys that are not published, in ascending order.
unfoldable pub unpublished : Definitions → String → List String → List StoredRuleLoadDiagnostic
unpublished published owner keys =
    let missing = KeySet.difference (KeySet.of_list keys) (Dict.keys published) in
    if is_empty missing
    then []
    else record {
      owner_id = owner;
      diagnostics =
          map
            (λ key. record {
              code = "unpublished_fact";
              path = PathSegment.name "facts" ∷ PathSegment.name key ∷ [];
            })
            missing;
    }
      ∷ []

unfoldable pub declared_for : List ContradictionFactRow → String → List String
declared_for [] contradiction = []
declared_for (link ∷ links) contradiction =
    let rest = declared_for links contradiction in
    if str_eq link.contradiction_semantic_id contradiction then link.fact_key ∷ rest else rest

unfoldable pub resolved_for : List QuestionFactRow → String → List String
resolved_for [] question = []
resolved_for (link ∷ links) question =
    let rest = resolved_for links question in
    if str_eq link.question_semantic_id question then link.fact_key ∷ rest else rest

abbrev pub pair_eq : String × String → String × String → Bool
pair_eq (a, b) (c, d) = str_eq a c && str_eq b d

module _ (library : Library) (inputs : CoreInputs) where
  abbrev pub service_definitions : String → Definitions
  service_definitions service =
      if is_active inputs.services service then inputs.published_definitions else inputs.definitions

  unfoldable pub candidate_outcome : CandidateRow → Outcome (String × String) Predicate
  unfolding decode is_active
  candidate_outcome candidate =
      let service = candidate.service_semantic_id in
      decode ("candidate:" +++ (service +++ (":" +++ candidate.procedure_semantic_id)))
        (validate_rule_v1 library.dates candidate.selection_predicate (service_definitions service))
        (service, candidate.procedure_semantic_id) (λ p. p)

  unfoldable pub version_outcome : VersionRow → Outcome String Predicate
  unfolding decode
  version_outcome version =
      decode ("procedure_version:" +++ version.semantic_id)
        (validate_rule_v1 library.dates version.applicability inputs.published_definitions)
        version.semantic_id (λ p. p)

  unfoldable pub contradiction_outcome : ContradictionRow → Outcome String Predicate
  unfolding decode is_active unpublished declared_for
  contradiction_outcome contradiction =
      let service = contradiction.service_semantic_id in
      let owner = "contradiction:" +++ contradiction.semantic_id in
      let o =
        decode owner
          (validate_rule_v1 library.dates contradiction.condition (service_definitions service))
          contradiction.semantic_id (λ p. p) in
      if is_some o.entry && is_active inputs.services service
      then record o {
        reported =
            o.reported
            ++ unpublished inputs.published_definitions owner
                (declared_for inputs.contradiction_facts contradiction.semantic_id);
      }
      else o

  unfoldable pub question_outcome : QuestionRow → Outcome String Predicate
  unfolding is_active unpublished resolved_for
  question_outcome question =
      if is_active inputs.services question.service_semantic_id
      then record {
        entry = none;
        reported =
            unpublished inputs.published_definitions ("question:" +++ question.semantic_id)
              (question.fact_key ∷ resolved_for inputs.question_facts question.semantic_id);
      }
      else record { entry = none; reported = [] }

  -- The stages in their order, each on the failures of those before it.
  unfoldable pub validate_core : Loaded DecodedCoreRules
  unfolding each_row fact_outcome checklist_item_outcome step_outcome fee_outcome warning_outcome
      candidate_outcome version_outcome contradiction_outcome question_outcome raise_failures
  validate_core =
      let published = inputs.published_definitions in
      let facts =
        each_row str_eq fact_outcome (record { failures = []; rules = [] })
          (Dict.values published) in
      let items =
        each_row eqb (checklist_item_outcome library published inputs.evidence)
          (record { failures = facts.failures; rules = [] }) inputs.checklist_items in
      let steps =
        each_row eqb (step_outcome library published inputs.evidence)
          (record { failures = items.failures; rules = [] }) inputs.steps in
      let fees =
        each_row eqb (fee_outcome library published inputs.evidence)
          (record { failures = steps.failures; rules = [] }) inputs.fees in
      let warnings =
        each_row eqb (warning_outcome library published inputs.evidence)
          (record { failures = fees.failures; rules = [] }) inputs.warnings in
      let candidates =
        each_row pair_eq candidate_outcome (record { failures = warnings.failures; rules = [] })
          inputs.candidates in
      let versions =
        each_row str_eq version_outcome (record { failures = candidates.failures; rules = [] })
          inputs.versions in
      let contradictions =
        each_row str_eq contradiction_outcome (record { failures = versions.failures; rules = [] })
          inputs.contradictions in
      let questions =
        each_row str_eq question_outcome (record { failures = contradictions.failures; rules = [] })
          inputs.questions in
      raise_failures questions.failures (record {
        checklist_items = items.rules;
        steps = steps.rules;
        fees = fees.rules;
        warnings = warnings.rules;
        candidates = candidates.rules;
        versions = versions.rules;
        contradictions = contradictions.rules;
      })
