-- ===== src/Snapshot/Claims.antt =====
-- backend/knowledge/snapshot_policy.py: validate_core, the rows of checklist items, Steps, fees and
-- warnings.
use bardi.Prelude.{
  ℕ, String, Bool, false, not, ◌&&◌, ◌||◌, Option, none, some, List, [], ◌∷◌, ◌++◌, ℤ, pos, int_lt,
  eqb, is_empty, is_some, some_and, str_eq, ◌+++◌, one_of, if◌then◌else◌,
}
use bardi.Facts.{Definitions, PathSegment, ValidationDiagnostic}
use bardi.Rules.{Predicate}
use bardi.Rules.Validation.{RuleValidationResult, validate_rule_v1}
use bardi.Snapshot.{
  Library, StoredRuleLoadDiagnostic, Outcome, failure, is_blank, is_omitted, reports, sets,
}
use bardi.Snapshot.Evidence.{EvidenceInfo, EvidenceIndex, links_of, lacks_source, adequate}
use bardi.Snapshot.Rows.{ClaimRow, StepRow, FeeRow, WarningRow}

-- `decode`: the entry of a rule that is decoded, or its diagnostics.
unfoldable pub decoded_as :
    {K V : Type 0}
    → String
    → List ValidationDiagnostic
    → Option Predicate
    → K
    → (Predicate → V)
    → Outcome K V
decoded_as owner diagnostics none key wrap =
    reports (record { owner_id = owner; diagnostics = diagnostics })
decoded_as owner diagnostics (some p) key wrap = sets key (wrap p)

unfoldable pub decode :
    {K V : Type 0} → String → RuleValidationResult → K → (Predicate → V) → Outcome K V
unfolding decoded_as
decode owner result key wrap = decoded_as owner result.diagnostics result.predicate key wrap

-- `failures` with what a further check appends.
abbrev pub with_checks : {K V : Type 0} → Outcome K V → List StoredRuleLoadDiagnostic → Outcome K V
with_checks o checks = record o { reported = o.reported ++ checks }

abbrev pub is_current_row : ClaimRow → Bool
is_current_row row = str_eq row.verification_state "current"

unfoldable pub owner_of : String → ClaimRow → String
owner_of kind row =
    kind +++ (":" +++ (row.procedure_version_semantic_id +++ (":" +++ row.semantic_id)))

abbrev pub evidence_failure : String → String → StoredRuleLoadDiagnostic
evidence_failure owner code = failure owner code (PathSegment.name "evidence" ∷ [])

unfoldable pub broken_basis : StepRow → Bool
broken_basis row =
    str_eq row.scope "eligibility_basis"
    && (not (is_some row.eligibility_basis_id)
        || not (
            some_and (λ version. eqb version row.procedure_version_id)
              row.eligibility_basis_procedure_version_id))

abbrev is_amount : Option ℤ → Bool
is_amount amount = some_and (λ n. not (int_lt n (pos 0))) amount

is_range : Option ℤ → Option ℤ → Bool
is_range (some minimum) (some maximum) =
    not (int_lt minimum (pos 0)) && not (int_lt maximum minimum)
is_range minimum maximum = false

unfoldable pub valid_fee_shape : FeeRow → Bool
unfolding is_range
valid_fee_shape row =
    let no_range = not (is_some row.minimum_amount) && not (is_some row.maximum_amount) in
    let range_ok = is_range row.minimum_amount row.maximum_amount in
    if str_eq row.value_state "known"
    then is_amount row.amount && no_range
    else if str_eq row.value_state "range"
    then not (is_some row.amount) && range_ok
    else if str_eq row.value_state "unknown"
    then not (is_some row.amount) && no_range
    else if str_eq row.value_state "unverified"
    then ((is_amount row.amount && no_range) || (not (is_some row.amount) && range_ok))
      && one_of row.step.claim.verification_state
          ("needs_reverification" ∷ "stale" ∷ "disputed" ∷ [])
    else false

module _ (library : Library) (definitions : Definitions) (evidence : EvidenceIndex) where
  unfoldable pub guidance : String → ClaimRow → Outcome ℕ (Option Predicate)
  unfolding decode
  guidance owner row =
      if is_omitted row.applicability
      then sets row.id none
      else decode owner (validate_rule_v1 library.dates row.applicability definitions) row.id
          (λ p. some p)

  unfoldable pub checklist_item_checks :
      String → ClaimRow → List EvidenceInfo → List StoredRuleLoadDiagnostic
  unfolding lacks_source
  checklist_item_checks owner item links =
      if is_current_row item && is_empty links
      then evidence_failure owner "missing_evidence_link" ∷ []
      else if lacks_source links
      then evidence_failure owner "missing_evidence_source" ∷ []
      else []

  -- A round of `for item in data.checklist_items`.
  unfoldable pub checklist_item_outcome : ClaimRow → Outcome ℕ (Option Predicate)
  unfolding guidance checklist_item_checks links_of owner_of
  checklist_item_outcome item =
      let owner = owner_of "checklist_item" item in
      let g = guidance owner item in
      if is_some g.entry
      then with_checks g
          (checklist_item_checks owner item (links_of evidence "checklist_item" item.id))
      else g

  unfoldable pub step_checks :
      (valid_rule : Bool) → String → StepRow → List StoredRuleLoadDiagnostic
  unfolding broken_basis links_of adequate
  step_checks valid_rule owner step =
      if broken_basis step
      then failure owner "invalid_basis_owner" (PathSegment.name "scope" ∷ []) ∷ []
      else if valid_rule
          && (is_current_row step.claim
              && not (adequate library (links_of evidence "step" step.claim.id)))
      then evidence_failure owner "inadequate_evidence" ∷ []
      else []

  unfoldable pub step_outcome : StepRow → Outcome ℕ (Option Predicate)
  unfolding guidance step_checks owner_of
  step_outcome step =
      let owner = owner_of "step" step.claim in
      let g = guidance owner step.claim in with_checks g (step_checks (is_some g.entry) owner step)

  abbrev pub evidence_required : FeeRow → Bool
  evidence_required fee = one_of fee.value_state ("known" ∷ "range" ∷ "unverified" ∷ [])

  abbrev pub current_support_required : FeeRow → Bool
  current_support_required fee =
      one_of fee.value_state ("known" ∷ "range" ∷ []) && is_current_row fee.step.claim

  unfoldable pub fee_checks : String → FeeRow → List EvidenceInfo → List StoredRuleLoadDiagnostic
  unfolding broken_basis valid_fee_shape lacks_source adequate
  fee_checks owner fee links =
      if broken_basis fee.step
      then failure owner "invalid_basis_owner" (PathSegment.name "scope" ∷ []) ∷ []
      else if is_blank library fee.currency
      then failure owner "missing_currency" (PathSegment.name "currency" ∷ []) ∷ []
      else if is_blank library fee.fee_type
      then failure owner "missing_fee_type" (PathSegment.name "fee_type" ∷ []) ∷ []
      else if not (valid_fee_shape fee)
      then failure owner "invalid_fee_value" (PathSegment.name "value_state" ∷ []) ∷ []
      else if evidence_required fee && is_empty links
      then evidence_failure owner "missing_evidence_link" ∷ []
      else if evidence_required fee && lacks_source links
      then evidence_failure owner "missing_evidence_source" ∷ []
      else if current_support_required fee && not (adequate library links)
      then evidence_failure owner "inadequate_evidence" ∷ []
      else []

  unfoldable pub fee_outcome : FeeRow → Outcome ℕ (Option Predicate)
  unfolding guidance fee_checks links_of owner_of
  fee_outcome fee =
      let owner = owner_of "fee" fee.step.claim in
      let g = guidance owner fee.step.claim in
      if is_some g.entry
      then with_checks g (fee_checks owner fee (links_of evidence "fee" fee.step.claim.id))
      else g

  unfoldable pub warning_checks :
      String → WarningRow → List EvidenceInfo → List StoredRuleLoadDiagnostic
  unfolding adequate
  warning_checks owner warning links =
      if (str_eq warning.kind "product" && not (is_empty links))
        || (str_eq warning.kind "administrative"
            && (is_current_row warning.claim && not (adequate library links)))
      then evidence_failure owner "invalid_warning_evidence" ∷ []
      else []

  unfoldable pub warning_outcome : WarningRow → Outcome ℕ (Option Predicate)
  unfolding guidance warning_checks links_of owner_of
  warning_outcome warning =
      let owner = owner_of "warning" warning.claim in
      with_checks (guidance owner warning.claim)
        (warning_checks owner warning (links_of evidence "warning" warning.claim.id))
