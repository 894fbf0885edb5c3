-- ===== src/Snapshot/Core/Rows.antt =====
-- Which rows of checklist items, Steps, fees and warnings pass validate_core.
use bardi.Prelude.{
  ◌≡◌, refl, ap, ◌∙◌, inl, inr, String, Bool, true, false, not, ◌&&◌, ◌||◌, Option, none, some,
  List, [], ◌∷◌, is_empty, is_some, str_eq, Bool-cases, if◌then◌else◌, arith,
}
use bardi.Facts.{ValidationDiagnostic, Definitions, Object}
use bardi.Rules.{Predicate}
use bardi.Rules.Validation.{validate_rule_v1}
use bardi.Snapshot.{Library, StoredRuleLoadDiagnostic, is_blank, is_omitted}
use bardi.Snapshot.Stages.{is_empty-append}
use bardi.Snapshot.Evidence.{EvidenceInfo, EvidenceIndex, links_of, lacks_source, adequate}
use bardi.Snapshot.Rows.{ClaimRow, StepRow, FeeRow, WarningRow}
use bardi.Snapshot.Claims.{
  decoded_as, decode, owner_of, is_current_row, broken_basis, valid_fee_shape, guidance,
  checklist_item_checks, checklist_item_outcome, step_checks, step_outcome, evidence_required,
  current_support_required, fee_checks, fee_outcome, warning_checks, warning_outcome,
}

-- The validation of a stored rule returns a predicate.
abbrev pub decodes : Library → Definitions → Object → Bool
decodes library definitions raw = is_some (validate_rule_v1 library.dates raw definitions).predicate

module _ {K V : Type 0} (owner : String) (diagnostics : List ValidationDiagnostic) where
  pub decoded_as-is_some :
      (r : Option Predicate) (k : K) (wrap : Predicate → V)
      → (is_empty (decoded_as owner diagnostics r k wrap).reported ≡ is_some r)
        × (is_some (decoded_as owner diagnostics r k wrap).entry ≡ is_some r)
  unfolding decoded_as
  decoded_as-is_some none k wrap = (refl, refl)
  decoded_as-is_some (some p) k wrap = (refl, refl)

-- A chain of checks, the first of which to fail is reported.
module _ (d : StoredRuleLoadDiagnostic) where
  unless :
      (c b : Bool) (rest : List StoredRuleLoadDiagnostic)
      → is_empty rest ≡ b
      → is_empty (if c then d ∷ [] else rest) ≡ (not c && b)
  unless true b rest h = refl
  unless false b rest h = h

  unless_not :
      (c b : Bool) (rest : List StoredRuleLoadDiagnostic)
      → is_empty rest ≡ b
      → is_empty (if not c then d ∷ [] else rest) ≡ (c && b)
  unless_not true b rest h = h
  unless_not false b rest h = refl

  unless_last : (c : Bool) → is_empty (if c then d ∷ [] else []) ≡ not c
  unless_last true = refl
  unless_last false = refl

module _ (library : Library) (definitions : Definitions) (evidence : EvidenceIndex) where
  -- The rule of a claim is omitted or decodes.
  abbrev pub has_rule : ClaimRow → Bool
  has_rule row = is_omitted row.applicability || decodes library definitions row.applicability

  guidance-has_rule :
      (owner : String) (row : ClaimRow)
      → (is_empty (guidance library definitions evidence owner row).reported ≡ has_rule row)
        × (is_some (guidance library definitions evidence owner row).entry ≡ has_rule row)
  unfolding guidance decode
  guidance-has_rule owner row =
      let r = validate_rule_v1 library.dates row.applicability definitions in
      elim (Bool-cases (is_omitted row.applicability)) [
        | inl e ↦ rw e (refl, refl)
        | inr e ↦ rw e (decoded_as-is_some owner r.diagnostics r.predicate row.id (λ p. some p))
      ]

  abbrev pub is_valid_checklist_item : ClaimRow → Bool
  is_valid_checklist_item item =
      let links = links_of evidence "checklist_item" item.id in
      has_rule item && (not (is_current_row item && is_empty links) && not (lacks_source links))

  pub checklist_item_outcome-is_valid :
      (item : ClaimRow)
      → is_empty (checklist_item_outcome library definitions evidence item).reported
        ≡ is_valid_checklist_item item
  unfolding checklist_item_outcome checklist_item_checks
  checklist_item_outcome-is_valid item =
      let owner = owner_of "checklist_item" item in
      let g = guidance library definitions evidence owner item in
      let (silent, entered) = guidance-has_rule owner item in
      let links = links_of evidence "checklist_item" item.id in
      ground (
        arith,
        silent,
        entered,
        is_empty-append g.reported
            (checklist_item_checks library definitions evidence owner item links),
      )

  abbrev pub is_valid_step : StepRow → Bool
  is_valid_step step =
      let links = links_of evidence "step" step.claim.id in
      has_rule step.claim
      && (not (broken_basis step)
          && not (is_current_row step.claim && not (adequate library links)))

  pub step_outcome-is_valid :
      (step : StepRow)
      → is_empty (step_outcome library definitions evidence step).reported ≡ is_valid_step step
  unfolding step_outcome step_checks
  step_outcome-is_valid step =
      let owner = owner_of "step" step.claim in
      let g = guidance library definitions evidence owner step.claim in
      let (silent, entered) = guidance-has_rule owner step.claim in
      let checks = step_checks library definitions evidence (is_some g.entry) owner step in
      ground (arith, silent, entered, is_empty-append g.reported checks)

  -- The checks on a fee, each a condition on the row.
  abbrev is_sound_fee : FeeRow → List EvidenceInfo → Bool
  is_sound_fee fee links =
      not (broken_basis fee.step)
      && (not (is_blank library fee.currency)
          && (not (is_blank library fee.fee_type)
              && (valid_fee_shape fee
                  && (not (evidence_required library definitions evidence fee && is_empty links)
                      && (not (
                            evidence_required library definitions evidence fee
                            && lacks_source links)
                          && not (
                              current_support_required library definitions evidence fee
                              && not (adequate library links)))))))

  abbrev pub is_valid_fee : FeeRow → Bool
  is_valid_fee fee =
      has_rule fee.step.claim && is_sound_fee fee (links_of evidence "fee" fee.step.claim.id)

  fee_checks-is_sound :
      (owner : String) (fee : FeeRow) (links : List EvidenceInfo)
      → is_empty (fee_checks library definitions evidence owner fee links) ≡ is_sound_fee fee links
  unfolding fee_checks
  fee_checks-is_sound owner fee links =
      let required = evidence_required library definitions evidence fee in
      let supported = current_support_required library definitions evidence fee in
      unless _ (broken_basis fee.step) _ _ (
        unless _ (is_blank library fee.currency) _ _ (
          unless _ (is_blank library fee.fee_type) _ _ (
            unless_not _ (valid_fee_shape fee) _ _ (
              unless _ (required && is_empty links) _ _ (
                unless _ (required && lacks_source links) _ _
                  (unless_last _ (supported && not (adequate library links))))))))

  pub fee_outcome-is_valid :
      (fee : FeeRow)
      → is_empty (fee_outcome library definitions evidence fee).reported ≡ is_valid_fee fee
  unfolding fee_outcome
  fee_outcome-is_valid fee =
      let owner = owner_of "fee" fee.step.claim in
      let g = guidance library definitions evidence owner fee.step.claim in
      let (silent, entered) = guidance-has_rule owner fee.step.claim in
      let links = links_of evidence "fee" fee.step.claim.id in
      let checks = fee_checks library definitions evidence owner fee links in
      ground (arith, silent, entered, is_empty-append g.reported checks)
      ∙ ap (λ b. has_rule fee.step.claim && b) (fee_checks-is_sound owner fee links)

  abbrev pub is_valid_warning : WarningRow → Bool
  is_valid_warning warning =
      let links = links_of evidence "warning" warning.claim.id in
      has_rule warning.claim
      && (not (str_eq warning.kind "product" && not (is_empty links))
          && not (
              str_eq warning.kind "administrative"
              && (is_current_row warning.claim && not (adequate library links))))

  pub warning_outcome-is_valid :
      (warning : WarningRow)
      → is_empty (warning_outcome library definitions evidence warning).reported
        ≡ is_valid_warning warning
  unfolding warning_outcome warning_checks
  warning_outcome-is_valid warning =
      let owner = owner_of "warning" warning.claim in
      let g = guidance library definitions evidence owner warning.claim in
      let (silent, entered) = guidance-has_rule owner warning.claim in
      let checks =
        warning_checks library definitions evidence owner warning
          (links_of evidence "warning" warning.claim.id) in
      ground (arith, silent, entered, is_empty-append g.reported checks)
