-- ===== src/Snapshot/Core/Typed.antt =====
-- The rules that validate_core hands on are well typed.
use bardi.Prelude.{
  ℕ, ◌≡◌, refl, sym, ap, subst, ◌∙◌, inl, inr, String, true, Option, none, some, List, ◌++◌,
  is_some, some_inj, some_not_none, Bool-cases, if◌then◌else◌, eqb, str_eq,
}
use bardi.Facts.{Definitions, ValidationDiagnostic}
use bardi.Rules.{Predicate}
use bardi.Rules.Typing.{is_well_typed}
use bardi.Rules.Validation.{validate_rule_v1}
use bardi.Rules.Validation.Typed.{validate_rule_v1-typed}
use bardi.Snapshot.{Library, StoredRuleLoadDiagnostic, loaded, Outcome, is_omitted}
use bardi.Snapshot.Stages.{raise_failures-loaded, AllEntries, each_row-AllEntries}
use bardi.Snapshot.Evidence.{EvidenceIndex}
use bardi.Snapshot.Rows.{
  ClaimRow, StepRow, FeeRow, WarningRow, CandidateRow, VersionRow, CoreInputs, DecodedCoreRules,
}
use bardi.Snapshot.Claims.{
  decoded_as, decode, owner_of, guidance, checklist_item_outcome, step_outcome, fee_outcome,
  warning_outcome,
}
use bardi.Snapshot.Core.{
  service_definitions, pair_eq, candidate_outcome, version_outcome, validate_core,
}

-- A decoded rule that may be omitted is well typed.
abbrev pub OptionTyped : Definitions → Option Predicate → Type 0
OptionTyped definitions o = (p : Predicate) → o ≡ some p → is_well_typed definitions p ≡ true

decoded_as-entry :
    {K V : Type 0} (owner : String) (diagnostics : List ValidationDiagnostic) (r : Option Predicate)
    (j k : K) (wrap : Predicate → V) (v : V)
    → (decoded_as owner diagnostics r j wrap).entry ≡ some (k, v)
    → (p : Predicate) × (r ≡ some p) × (j ≡ k) × (wrap p ≡ v)
unfolding decoded_as
decoded_as-entry owner diagnostics none j k wrap v h = cc
decoded_as-entry owner diagnostics (some p) j k wrap v h =
    (p, refl, ap (λ e. e.0) (some_inj h), ap (λ e. e.1) (some_inj h))

-- Checks that are made of a row whose rule is decoded leave its entry.
same_entry :
    (g : Outcome ℕ (Option Predicate)) (checks : List StoredRuleLoadDiagnostic) (k : ℕ)
    (v : Option Predicate)
    → (if is_some g.entry then record g { reported = g.reported ++ checks } else g).entry
      ≡ some (k, v)
    → g.entry ≡ some (k, v)
same_entry g checks k v h = elim (Bool-cases (is_some g.entry)) [
  | inl e ↦ rw e at h
  | inr e ↦ rw e at h
]

module _ (library : Library) (definitions : Definitions) (evidence : EvidenceIndex) where
  guidance-typed :
      (owner : String) (row : ClaimRow) (k : ℕ) (v : Option Predicate)
      → (guidance library definitions evidence owner row).entry ≡ some (k, v)
      → OptionTyped definitions v
  unfolding guidance decode
  guidance-typed owner row k v h p e =
      let r = validate_rule_v1 library.dates row.applicability definitions in
      elim (Bool-cases (is_omitted row.applicability)) [
        | inl skip ↦
            let q = ap (λ x. x.1) (some_inj (rw skip at h)) in
            elim (some_not_none (sym (q ∙ e))) [ ]
        | inr kept ↦
            let (w, decoded, _, q) =
              decoded_as-entry owner r.diagnostics r.predicate row.id k (λ p. some p) v
                (rw kept at h) in
            subst (λ x. is_well_typed definitions x ≡ true) (some_inj (q ∙ e))
              (validate_rule_v1-typed library.dates row.applicability definitions w decoded)
      ]

  checklist_item-typed :
      (row : ClaimRow) (k : ℕ) (v : Option Predicate)
      → (checklist_item_outcome library definitions evidence row).entry ≡ some (k, v)
      → OptionTyped definitions v
  unfolding checklist_item_outcome
  checklist_item-typed row k v h =
      let owner = owner_of "checklist_item" row in
      guidance-typed owner row k v
        (same_entry (guidance library definitions evidence owner row) _ k v h)

  step-typed :
      (row : StepRow) (k : ℕ) (v : Option Predicate)
      → (step_outcome library definitions evidence row).entry ≡ some (k, v)
      → OptionTyped definitions v
  unfolding step_outcome
  step-typed row k v h = guidance-typed (owner_of "step" row.claim) row.claim k v h

  fee-typed :
      (row : FeeRow) (k : ℕ) (v : Option Predicate)
      → (fee_outcome library definitions evidence row).entry ≡ some (k, v)
      → OptionTyped definitions v
  unfolding fee_outcome
  fee-typed row k v h =
      let owner = owner_of "fee" row.step.claim in
      guidance-typed owner row.step.claim k v
        (same_entry (guidance library definitions evidence owner row.step.claim) _ k v h)

  warning-typed :
      (row : WarningRow) (k : ℕ) (v : Option Predicate)
      → (warning_outcome library definitions evidence row).entry ≡ some (k, v)
      → OptionTyped definitions v
  unfolding warning_outcome
  warning-typed row k v h = guidance-typed (owner_of "warning" row.claim) row.claim k v h

module _ (library : Library) (inputs : CoreInputs) where
  -- A rule of a Service is typed by the published definitions where the Service is active, and by
  -- all definitions elsewhere.
  candidate-typed :
      (row : CandidateRow) (k : String × String) (p : Predicate)
      → (candidate_outcome library inputs row).entry ≡ some (k, p)
      → is_well_typed (service_definitions library inputs k.0) p ≡ true
  unfolding candidate_outcome decode
  candidate-typed row k p h =
      let definitions = service_definitions library inputs row.service_semantic_id in
      let r = validate_rule_v1 library.dates row.selection_predicate definitions in
      let (w, decoded, key, q) =
        decoded_as-entry _ r.diagnostics r.predicate
          (row.service_semantic_id, row.procedure_semantic_id) k (λ p. p) p h in
      subst (λ x. is_well_typed (service_definitions library inputs k.0) x ≡ true) q
        (subst (λ x. is_well_typed (service_definitions library inputs x.0) w ≡ true) key
          (validate_rule_v1-typed library.dates row.selection_predicate definitions w decoded))

  version-typed :
      (row : VersionRow) (k : String) (p : Predicate)
      → (version_outcome library inputs row).entry ≡ some (k, p)
      → is_well_typed inputs.published_definitions p ≡ true
  unfolding version_outcome decode
  version-typed row k p h =
      let r = validate_rule_v1 library.dates row.applicability inputs.published_definitions in
      let (w, decoded, _, q) =
        decoded_as-entry _ r.diagnostics r.predicate row.semantic_id k (λ p. p) p h in
      subst (λ x. is_well_typed inputs.published_definitions x ≡ true) q
        (validate_rule_v1-typed library.dates row.applicability inputs.published_definitions w
          decoded)

  -- What every decoded rule of the core stage is.
  pub CoreTyped : DecodedCoreRules → Type 0
  CoreTyped r =
      AllEntries (λ _ v. OptionTyped inputs.published_definitions v) r.checklist_items
      × AllEntries (λ _ v. OptionTyped inputs.published_definitions v) r.steps
      × AllEntries (λ _ v. OptionTyped inputs.published_definitions v) r.fees
      × AllEntries (λ _ v. OptionTyped inputs.published_definitions v) r.warnings
      × AllEntries (λ k p. is_well_typed (service_definitions library inputs k.0) p ≡ true)
          r.candidates
      × AllEntries (λ _ p. is_well_typed inputs.published_definitions p ≡ true) r.versions

  -- Every rule that the core stage hands on for guidance, a candidate or a version is well typed.
  pub validate_core-CoreTyped :
      (r : DecodedCoreRules) → validate_core library inputs ≡ loaded r → CoreTyped r
  unfolding validate_core CoreTyped
  validate_core-CoreTyped r h =
      let published = inputs.published_definitions in
      let evidence = inputs.evidence in
      let (_, e) = raise_failures-loaded _ _ r h in
      subst CoreTyped e (
        each_row-AllEntries eqb (checklist_item_outcome library published evidence) _ _
            inputs.checklist_items (checklist_item-typed library published evidence) tt,
        each_row-AllEntries eqb (step_outcome library published evidence) _ _ inputs.steps
            (step-typed library published evidence) tt,
        each_row-AllEntries eqb (fee_outcome library published evidence) _ _ inputs.fees
            (fee-typed library published evidence) tt,
        each_row-AllEntries eqb (warning_outcome library published evidence) _ _ inputs.warnings
            (warning-typed library published evidence) tt,
        each_row-AllEntries pair_eq (candidate_outcome library inputs) _ _ inputs.candidates
            candidate-typed tt,
        each_row-AllEntries str_eq (version_outcome library inputs) _ _ inputs.versions
            version-typed tt,
      )
