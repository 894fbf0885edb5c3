-- ===== src/Snapshot/Features.antt =====
-- backend/knowledge/snapshot_policy.py: validate_bases, validate_dependencies and validate_routing.
mod Rulings
pub mod Bases
pub mod Dependencies
pub mod Routing
use bardi.Prelude.{
  ℕ, String, Bool, true, false, not, ◌&&◌, ◌||◌, Option, none, some, List, [], ◌∷◌, eqb, is_empty,
  is_some, str_eq, ◌+++◌, one_of, if◌then◌else◌,
}
use bardi.Facts.{Definitions, Object, PathSegment, ValidationDiagnostic}
use bardi.Rules.{Predicate}
use bardi.Rules.Validation.{RuleValidationResult, validate_rule_v1}
use bardi.Snapshot.{
  Library, StoredRuleLoadDiagnostic, Outcome, Stage, Loaded, Table, failure, is_blank, is_omitted,
  reports, sets, each_row, raise_failures,
}
use bardi.Snapshot.Evidence.{
  EvidenceInfo, EvidenceIndex, links_of, lacks_source, routing_evidence_is_adequate,
}
use bardi.Snapshot.Claims.{evidence_failure, owner_of}
use bardi.Snapshot.Rows.{
  ClaimRow, BasisRow, DependencyRow, AssociationRow, MaterialRow, DecodedBasisRules,
  DecodedDependencyRules,
}

-- Both texts are written, and there is evidence, all of it with a source.
unfoldable pub is_evidenced : Library → String → String → List EvidenceInfo → Bool
unfolding lacks_source
is_evidenced library text_ar text_en links = not (
    is_blank library text_ar
    || (is_blank library text_en || (is_empty links || lacks_source links)))

module _ {V : Type 0} (owner : String) where
  optional_as :
      List ValidationDiagnostic → Option Predicate → (Option Predicate → Outcome ℕ V) → Outcome ℕ V
  optional_as diagnostics none next =
      reports (record { owner_id = owner; diagnostics = diagnostics })
  optional_as diagnostics (some p) next = next (some p)

  -- A rule that may be omitted; a refusal ends the round.
  unfoldable pub optional_rule :
      (omitted : Bool) → RuleValidationResult → (Option Predicate → Outcome ℕ V) → Outcome ℕ V
  unfolding optional_as
  optional_rule omitted result next =
      if omitted then next none else optional_as result.diagnostics result.predicate next

  required_as :
      List ValidationDiagnostic → Option Predicate → (Predicate → Outcome ℕ V) → Outcome ℕ V
  required_as diagnostics none next =
      reports (record { owner_id = owner; diagnostics = diagnostics })
  required_as diagnostics (some p) next = next p

  -- A rule that may not be omitted.
  unfoldable pub required_rule :
      (omitted : Bool)
      → StoredRuleLoadDiagnostic
      → RuleValidationResult
      → (Predicate → Outcome ℕ V)
      → Outcome ℕ V
  unfolding required_as
  required_rule omitted missing result next =
      if omitted then reports missing else required_as result.diagnostics result.predicate next

abbrev basis_owner : BasisRow → String
basis_owner row =
    "eligibility_basis:" +++ (row.procedure_version_semantic_id +++ (":" +++ row.semantic_id))

abbrev dependency_owner : DependencyRow → String
dependency_owner row =
    "procedure_dependency:" +++ (row.procedure_version_semantic_id +++ (":" +++ row.semantic_id))

module _ (library : Library) (definitions : Definitions) (evidence : EvidenceIndex) where
  abbrev rule : Object → RuleValidationResult
  rule raw = validate_rule_v1 library.dates raw definitions

  basis_evidence : String → BasisRow → Option Predicate → Predicate → Outcome ℕ DecodedBasisRules
  unfolding is_evidenced links_of
  basis_evidence owner row reachability qualification =
      if is_evidenced library row.text_ar row.text_en (links_of evidence "eligibility_basis" row.id)
      then sets row.id (record { reachability = reachability; qualification = qualification })
      else reports (evidence_failure owner "invalid_basis_evidence")

  basis_qualification : String → BasisRow → Option Predicate → Outcome ℕ DecodedBasisRules
  unfolding required_rule basis_evidence
  basis_qualification owner row reachability =
      required_rule owner (is_omitted row.qualification)
        (failure owner "missing_qualification" (PathSegment.name "qualification" ∷ []))
        (rule row.qualification) (basis_evidence owner row reachability)

  -- A round of the loop of validate_bases.
  unfoldable pub basis_outcome : BasisRow → Outcome ℕ DecodedBasisRules
  unfolding optional_rule basis_qualification
  basis_outcome row =
      let owner =
        "eligibility_basis:"
        +++ (row.procedure_version_semantic_id +++ (":" +++ row.semantic_id)) in
      optional_rule owner (is_omitted row.reachability) (rule row.reachability)
        (basis_qualification owner row)

  unfoldable pub validate_bases : List BasisRow → Loaded (Table ℕ DecodedBasisRules)
  unfolding each_row basis_outcome raise_failures
  validate_bases rows =
      let s = each_row eqb basis_outcome (record { failures = []; rules = [] }) rows in
      raise_failures s.failures s.rules

  dependency_evidence :
      String → DependencyRow → Option Predicate → Predicate → Outcome ℕ DecodedDependencyRules
  unfolding is_evidenced links_of
  dependency_evidence owner row applicability satisfied_when =
      if is_evidenced library row.text_ar row.text_en
        (links_of evidence "procedure_dependency" row.id)
      then sets row.id (record { applicability = applicability; satisfied_when = satisfied_when })
      else reports (evidence_failure owner "invalid_dependency_evidence")

  dependency_satisfaction :
      String → DependencyRow → Option Predicate → Outcome ℕ DecodedDependencyRules
  unfolding required_rule dependency_evidence
  dependency_satisfaction owner row applicability =
      required_rule owner (is_omitted row.satisfied_when)
        (failure owner "missing_satisfied_when" (PathSegment.name "satisfied_when" ∷ []))
        (rule row.satisfied_when) (dependency_evidence owner row applicability)

  dependency_rules : String → DependencyRow → Outcome ℕ DecodedDependencyRules
  unfolding optional_rule dependency_satisfaction
  dependency_rules owner row =
      optional_rule owner (is_omitted row.applicability) (rule row.applicability)
        (dependency_satisfaction owner row)

  -- A round of the loop of validate_dependencies.
  unfoldable pub dependency_outcome : DependencyRow → Outcome ℕ DecodedDependencyRules
  unfolding dependency_rules
  dependency_outcome row =
      let owner = dependency_owner row in
      if not (str_eq row.relation "blocking_prerequisite")
      then reports
          (failure owner "unsupported_dependency_relation" (PathSegment.name "relation" ∷ []))
      else if eqb row.procedure_version_procedure_id row.target_procedure_id
      then reports (failure owner "self_dependency" (PathSegment.name "target_procedure" ∷ []))
      else dependency_rules owner row

  unfoldable pub validate_dependencies :
      List DependencyRow → Loaded (Table ℕ DecodedDependencyRules)
  unfolding each_row dependency_outcome raise_failures
  validate_dependencies rows =
      let s = each_row eqb dependency_outcome (record { failures = []; rules = [] }) rows in
      raise_failures s.failures s.rules

  -- There is evidence, all of it with a source, and it is adequate where the row is current.
  unfoldable pub is_routable : (verification_state : String) → List EvidenceInfo → Bool
  unfolding lacks_source routing_evidence_is_adequate
  is_routable verification_state links = not (
      is_empty links
      || (lacks_source links
          || (str_eq verification_state "current"
              && not (routing_evidence_is_adequate library links))))

  -- `decoded.diagnostics or (ValidationDiagnostic("invalid_routing_evidence", ...),)`
  abbrev or_invalid_evidence : List ValidationDiagnostic → List ValidationDiagnostic
  or_invalid_evidence [] =
      record { code = "invalid_routing_evidence"; path = PathSegment.name "evidence" ∷ [] } ∷ []
  or_invalid_evidence (d ∷ diagnostics) = d ∷ diagnostics

  association_as :
      String
      → ℕ
      → (routable : Bool) → List ValidationDiagnostic
      → Option Predicate
      → Outcome ℕ Predicate
  association_as owner id true diagnostics (some p) = sets id p
  association_as owner id routable diagnostics result =
      reports (record { owner_id = owner; diagnostics = or_invalid_evidence diagnostics })

  unfoldable pub association_outcome : AssociationRow → Outcome ℕ Predicate
  unfolding association_as is_routable links_of owner_of
  association_outcome row =
      let result = rule row.claim.applicability in
      let links = links_of evidence "procedure_service_point_association" row.claim.id in
      association_as (owner_of "service_point_association" row.claim) row.claim.id
        (is_routable row.claim.verification_state links) result.diagnostics result.predicate

  unfoldable pub is_valid_material : MaterialRow → Bool
  unfolding is_routable links_of
  is_valid_material material =
      not (is_blank library material.address_ar)
      && (not (is_blank library material.address_en)
          && (one_of material.availability ("available" ∷ "unknown" ∷ [])
              && is_routable material.verification_state
                  (links_of evidence "service_point_version" material.id)))

  unfoldable pub material_outcome : MaterialRow → Outcome ℕ Predicate
  unfolding is_valid_material
  material_outcome material =
      if is_valid_material material
      then record { entry = none; reported = [] }
      else reports (
          failure ("service_point_version:" +++ material.semantic_id)
            "invalid_service_point_material" [])

  unfoldable pub validate_routing :
      List AssociationRow → List MaterialRow → Loaded (Table ℕ Predicate)
  unfolding each_row association_outcome material_outcome raise_failures
  validate_routing associations materials =
      let s =
        each_row eqb association_outcome (record { failures = []; rules = [] }) associations in
      let t =
        each_row eqb material_outcome (record { failures = s.failures; rules = [] }) materials in
      raise_failures t.failures s.rules
