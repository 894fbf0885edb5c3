-- ===== src/Snapshot/Features/Dependencies.antt =====
-- Which rows pass validate_dependencies, and that the rules that they hand on are well typed.
use bardi.Prelude.{
  ℕ, ◌≡◌, refl, subst, ap, inl, inr, String, Bool, true, not, ◌&&◌, ◌||◌, Option, some, List, [],
  ◌∷◌, is_empty, all, eqb, str_eq, Bool-cases, some_inj,
}
use bardi.Facts.{Definitions, Object, PathSegment}
use bardi.Rules.{Predicate}
use bardi.Rules.Typing.{is_well_typed}
use bardi.Rules.Validation.{validate_rule_v1}
use bardi.Rules.Validation.Typed.{validate_rule_v1-typed}
use bardi.Snapshot.{Library, loaded, Table, is_omitted, failure}
use bardi.Snapshot.Evidence.{EvidenceIndex, links_of}
use bardi.Snapshot.Rows.{DependencyRow, DecodedDependencyRules}
use bardi.Snapshot.Features.{is_evidenced, dependency_outcome, validate_dependencies}
use bardi.Prelude.{In}
use bardi.Snapshot.{load_error, StoredRuleLoadDiagnostic}
use bardi.Snapshot.Reports.{each_row-load_error}
use bardi.Snapshot.Stages.{is_loaded, AllEntries, each_row-is_loaded, each_row-loaded}
use bardi.Snapshot.Features.{dependency_evidence, dependency_satisfaction, dependency_rules}
use bardi.Snapshot.Features.{rule}
use bardi.Snapshot.Features.Rulings.{
  optional_rule-reported, required_rule-reported, optional_rule-entry, required_rule-entry,
}
use bardi.Snapshot.Features.Bases.{decodes, OptionTyped}
use bardi.Snapshot.Features.{dependency_owner}

module _ (library : Library) (definitions : Definitions) (evidence : EvidenceIndex) where
  typed_rule :
      (raw : Object) (p : Predicate)
      → (validate_rule_v1 library.dates raw definitions).predicate ≡ some p
      → is_well_typed definitions p ≡ true
  typed_rule raw p h = validate_rule_v1-typed library.dates raw definitions p h

  -- The rules of the dependency decode, and it has its texts and its evidence.
  abbrev has_dependency_rules : DependencyRow → Bool
  has_dependency_rules row =
      (is_omitted row.applicability || decodes library definitions row.applicability)
      && ((not (is_omitted row.satisfied_when) && decodes library definitions row.satisfied_when)
          && is_evidenced library row.text_ar row.text_en
              (links_of evidence "procedure_dependency" row.id))

  dependency_evidence-reported :
      (owner : String) (row : DependencyRow) (r : Option Predicate) (q : Predicate)
      → is_empty (dependency_evidence library definitions evidence owner row r q).reported
        ≡ is_evidenced library row.text_ar row.text_en
            (links_of evidence "procedure_dependency" row.id)
  unfolding dependency_evidence
  dependency_evidence-reported owner row r q =
      let b =
        is_evidenced library row.text_ar row.text_en
          (links_of evidence "procedure_dependency" row.id) in
      elim (Bool-cases b) [ inl e ↦ rw e refl | inr e ↦ rw e refl ]

  dependency_rules-reported :
      (owner : String) (row : DependencyRow)
      → is_empty (dependency_rules library definitions evidence owner row).reported
        ≡ has_dependency_rules row
  unfolding dependency_rules dependency_satisfaction
  dependency_rules-reported owner row =
      let evidenced =
        is_evidenced library row.text_ar row.text_en
          (links_of evidence "procedure_dependency" row.id) in
      optional_rule-reported owner (is_omitted row.applicability)
        (rule library definitions evidence row.applicability)
        ((not (is_omitted row.satisfied_when) && decodes library definitions row.satisfied_when)
          && evidenced)
        (dependency_satisfaction library definitions evidence owner row)
        (λ r.
          required_rule-reported owner (is_omitted row.satisfied_when)
            (rule library definitions evidence row.satisfied_when)
            (failure owner "missing_satisfied_when" (PathSegment.name "satisfied_when" ∷ []))
            evidenced (dependency_evidence library definitions evidence owner row r)
            (dependency_evidence-reported owner row r))

  -- A blocking prerequisite on another Procedure whose rules decode, with its texts and evidence.
  abbrev pub is_valid_dependency : DependencyRow → Bool
  is_valid_dependency row =
      str_eq row.relation "blocking_prerequisite"
      && (not (eqb row.procedure_version_procedure_id row.target_procedure_id)
          && has_dependency_rules row)

  dependency_outcome-is_valid_dependency :
      (row : DependencyRow)
      → is_empty (dependency_outcome library definitions evidence row).reported
        ≡ is_valid_dependency row
  unfolding dependency_outcome
  dependency_outcome-is_valid_dependency row =
      elim (Bool-cases (str_eq row.relation "blocking_prerequisite")) [
        | inr e ↦ rw e refl
        | inl e ↦
            rw e
              (elim (Bool-cases (eqb row.procedure_version_procedure_id row.target_procedure_id)) [
                | inl q ↦ rw q refl
                | inr q ↦ rw q (dependency_rules-reported (dependency_owner row) row)
              ])
      ]

  -- Every rule of a decoded dependency is well typed.
  abbrev pub DependencyTyped : DecodedDependencyRules → Type 0
  DependencyTyped r =
      OptionTyped definitions r.applicability × (is_well_typed definitions r.satisfied_when ≡ true)

  dependency_evidence-entry :
      (owner : String) (row : DependencyRow) (r : Option Predicate) (q : Predicate) (k : ℕ)
      (v : DecodedDependencyRules)
      → (dependency_evidence library definitions evidence owner row r q).entry ≡ some (k, v)
      → record { applicability = r; satisfied_when = q } ≡ v
  unfolding dependency_evidence
  dependency_evidence-entry owner row r q k v h =
      let b =
        is_evidenced library row.text_ar row.text_en
          (links_of evidence "procedure_dependency" row.id) in
      elim (Bool-cases b) [
        | inl e ↦ ap (λ x. x.1) (some_inj (rw e at h))
        | inr e ↦ let no = rw e at h in cc
      ]

  dependency_rules-DependencyTyped :
      (owner : String) (row : DependencyRow) (k : ℕ) (v : DecodedDependencyRules)
      → (dependency_rules library definitions evidence owner row).entry ≡ some (k, v)
      → DependencyTyped v
  unfolding dependency_rules dependency_satisfaction
  dependency_rules-DependencyTyped owner row k v h =
      let Typed : Predicate → Type 0 = λ p. is_well_typed definitions p ≡ true in
      let (r, typed, later) =
        optional_rule-entry owner (is_omitted row.applicability)
          (rule library definitions evidence row.applicability) Typed
          (dependency_satisfaction library definitions evidence owner row) (k, v)
          (typed_rule row.applicability) h in
      let (q, ok, last) =
        required_rule-entry owner (is_omitted row.satisfied_when)
          (rule library definitions evidence row.satisfied_when) Typed
          (failure owner "missing_satisfied_when" (PathSegment.name "satisfied_when" ∷ []))
          (dependency_evidence library definitions evidence owner row r) (k, v)
          (typed_rule row.satisfied_when) later in
      subst DependencyTyped (dependency_evidence-entry owner row r q k v last) (typed, ok)

  dependency_outcome-DependencyTyped :
      (row : DependencyRow) (k : ℕ) (v : DecodedDependencyRules)
      → (dependency_outcome library definitions evidence row).entry ≡ some (k, v)
      → DependencyTyped v
  unfolding dependency_outcome
  dependency_outcome-DependencyTyped row k v h =
      elim (Bool-cases (str_eq row.relation "blocking_prerequisite")) [
        | inr e ↦ let no = rw e at h in cc
        | inl e ↦
            let h' = rw e at h in
            elim (Bool-cases (eqb row.procedure_version_procedure_id row.target_procedure_id)) [
              | inl q ↦ let no = rw q at h' in cc
              | inr q ↦ dependency_rules-DependencyTyped (dependency_owner row) row k v (rw q at h')
            ]
      ]

  -- The dependencies load exactly if each row is valid: it is a blocking prerequisite on another
  -- Procedure, its applicability is omitted or decodes, its satisfaction rule is present and decodes,
  -- and it has both texts and evidence, all of it with a source.
  pub validate_dependencies-is_valid_dependency :
      (rows : List DependencyRow)
      → is_loaded (validate_dependencies library definitions evidence rows)
        ≡ all is_valid_dependency rows
  unfolding validate_dependencies
  validate_dependencies-is_valid_dependency rows =
      each_row-is_loaded eqb (dependency_outcome library definitions evidence) is_valid_dependency
        rows dependency_outcome-is_valid_dependency

  -- Every rule of the dependencies that load is well typed.
  pub validate_dependencies-DependencyTyped :
      (rows : List DependencyRow) (t : Table ℕ DecodedDependencyRules)
      → validate_dependencies library definitions evidence rows ≡ loaded t
      → AllEntries (λ _ v. DependencyTyped v) t
  unfolding validate_dependencies
  validate_dependencies-DependencyTyped rows t h =
      each_row-loaded eqb (dependency_outcome library definitions evidence)
        (λ _ v. DependencyTyped v) rows t dependency_outcome-DependencyTyped h

  -- A load error of the dependencies reports every failure of every row, and nothing else: no row hides
  -- the failure of another.
  pub validate_dependencies-load_error :
      (rows : List DependencyRow) (ds : List StoredRuleLoadDiagnostic)
      (d : StoredRuleLoadDiagnostic)
      → validate_dependencies library definitions evidence rows ≡ load_error ds
      → (In d ds
          → (row : DependencyRow) × In row rows
            × In d (dependency_outcome library definitions evidence row).reported)
        × ((row : DependencyRow)
            → In row rows
            → In d (dependency_outcome library definitions evidence row).reported
            → In d ds)
  unfolding validate_dependencies
  validate_dependencies-load_error rows ds d h =
      each_row-load_error eqb (dependency_outcome library definitions evidence) rows ds d h
