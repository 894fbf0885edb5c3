-- ===== src/Examples/Captured.antt =====
-- The integrity policy on small captured rows.
use bardi.Prelude.{
  ◌≡◌, refl, ◌&&◌, true, none, some, List, [], ◌∷◌, all, any, str_eq, if◌then◌else◌, sort,
}
use bardi.KeySet
use bardi.Dict
use bardi.Facts.{Object, Entries, value_fits}
use bardi.Rules.Validation.{validate_rule_v1}
use bardi.Snapshot.{Library, loaded}
use bardi.Prelude.{In}
use bardi.Facts.{PathSegment}
use bardi.Snapshot.{load_error, StoredRuleLoadDiagnostic}
use bardi.Snapshot.Features.{dependency_outcome}
use bardi.Snapshot.Features.Dependencies.{validate_dependencies-load_error}
use bardi.Snapshot.Stages.{is_loaded}
use bardi.Snapshot.Evidence.{
  SourceInfo, EvidenceInfo, EvidenceIndex, adequate, routing_evidence_is_adequate,
}
use bardi.Snapshot.Evidence.Adequacy.{
  is_sound_link, is_support, routing_evidence_is_adequate-all, routing_evidence-adequate,
}
use bardi.Snapshot.Rows.{
  ClaimRow, CoreInputs, DecodedCoreRules, BasisRow, DependencyRow, AssociationRow, MaterialRow,
}
use bardi.Snapshot.Core.{validate_core}
use bardi.Snapshot.Core.Laws.{is_valid_core, validate_core-is_valid_core}
use bardi.Snapshot.Core.Typed.{CoreTyped, validate_core-CoreTyped}
use bardi.Snapshot.Features.{validate_bases, validate_dependencies, validate_routing}
use bardi.Snapshot.Features.Bases.{is_valid_basis, validate_bases-is_valid_basis}
use bardi.Snapshot.Features.Dependencies.{
  is_valid_dependency, validate_dependencies-is_valid_dependency,
}
use bardi.Snapshot.Features.Routing.{
  is_valid_association, is_valid_point, validate_routing-is_valid,
}
use bardi.Examples.Stored.{leap_text, small_definitions, stored, nested}

-- `strip` on texts that have no space around them, or nothing else.
abbrev library : Library
library = record { dates = leap_text; strip = λ s. if str_eq s " " then "" else s }

abbrev official : SourceInfo
official = record { classification = "official"; observation_date = none; context = "" }

abbrev support : EvidenceInfo
support = record {
  passage = "p. 4";
  location = "article 2";
  applicability_context = "adults";
  support_status = "supports";
  verification_state = "current";
  sources = official ∷ [];
}

abbrev index : EvidenceIndex
index =
    (("step", 1), support ∷ [])
    ∷ (("eligibility_basis", 1), support ∷ [])
    ∷ (("procedure_dependency", 1), support ∷ [])
    ∷ (("procedure_service_point_association", 1), support ∷ [])
    ∷ (("service_point_version", 1), support ∷ [])
    ∷ []

routing_evidence_is_adequate-all_example :
    routing_evidence_is_adequate library (support ∷ [])
    ≡ (all (is_sound_link library) (support ∷ []) && any (is_support library) (support ∷ []))
routing_evidence_is_adequate-all_example = routing_evidence_is_adequate-all library (support ∷ [])

one_support : routing_evidence_is_adequate library (support ∷ []) ≡ true
unfolding routing_evidence_is_adequate
one_support = refl

routing_evidence-adequate_example : adequate library (support ∷ []) ≡ true
routing_evidence-adequate_example = routing_evidence-adequate library (support ∷ []) one_support

abbrev step_row : ClaimRow
step_row = record {
  id = 1;
  procedure_version_semantic_id = "v1";
  semantic_id = "collect";
  applicability = stored;
  verification_state = "current";
}

abbrev inputs : CoreInputs
inputs = record {
  definitions = small_definitions;
  published_definitions = small_definitions;
  evidence = index;
  services = record { semantic_id = "passport"; is_active = true } ∷ [];
  checklist_items = [];
  steps =
      record {
        claim = step_row;
        scope = "common";
        eligibility_basis_id = none;
        eligibility_basis_procedure_version_id = none;
        procedure_version_id = 1;
      }
      ∷ [];
  fees = [];
  warnings = [];
  candidates =
      record {
        service_semantic_id = "passport";
        procedure_semantic_id = "renewal";
        selection_predicate = stored;
      }
      ∷ [];
  versions = [];
  contradictions = [];
  contradiction_facts = [];
  questions =
      record { semantic_id = "age"; service_semantic_id = "passport"; fact_key = "applicant_age" }
      ∷ [];
  question_facts = [];
}

abbrev core_rules : DecodedCoreRules
core_rules = record {
  checklist_items = [];
  steps = (1, some nested) ∷ [];
  fees = [];
  warnings = [];
  candidates = (("passport", "renewal"), nested) ∷ [];
  versions = [];
  contradictions = [];
}

core_loads : validate_core library inputs ≡ loaded core_rules
unfolding validate_core validate_rule_v1 value_fits Dict.get Dict.keys Dict.values KeySet.difference
    KeySet.of_list KeySet.add KeySet.member sort
core_loads = refl

validate_core-is_valid_core_example :
    is_loaded (validate_core library inputs) ≡ is_valid_core library inputs
validate_core-is_valid_core_example = validate_core-is_valid_core library inputs

validate_core-CoreTyped_example : CoreTyped library inputs core_rules
validate_core-CoreTyped_example = validate_core-CoreTyped library inputs core_rules core_loads

abbrev bases : List BasisRow
bases =
    record {
      id = 1;
      procedure_version_semantic_id = "v1";
      semantic_id = "student";
      text_ar = "a";
      text_en = "b";
      reachability = Object.dict Entries.end;
      qualification = stored;
    }
    ∷ []

validate_bases-is_valid_basis_example :
    is_loaded (validate_bases library small_definitions index bases)
    ≡ all (is_valid_basis library small_definitions index) bases
validate_bases-is_valid_basis_example =
    validate_bases-is_valid_basis library small_definitions index bases

abbrev dependencies : List DependencyRow
dependencies =
    record {
      id = 1;
      procedure_version_semantic_id = "v1";
      procedure_version_procedure_id = 1;
      target_procedure_id = 2;
      semantic_id = "id_card";
      text_ar = "a";
      text_en = "b";
      relation = "blocking_prerequisite";
      applicability = Object.dict Entries.end;
      satisfied_when = stored;
    }
    ∷ []

validate_dependencies-is_valid_dependency_example :
    is_loaded (validate_dependencies library small_definitions index dependencies)
    ≡ all (is_valid_dependency library small_definitions index) dependencies
validate_dependencies-is_valid_dependency_example =
    validate_dependencies-is_valid_dependency library small_definitions index dependencies

abbrev associations : List AssociationRow
associations = record { claim = step_row; service_point_version_id = 1 } ∷ []

abbrev materials : List MaterialRow
materials =
    record {
      id = 1;
      semantic_id = "office";
      address_ar = "a";
      address_en = "b";
      availability = "available";
      verification_state = "current";
    }
    ∷ []

validate_routing-is_valid_example :
    is_loaded (validate_routing library small_definitions index associations materials) ≡ (
      all (is_valid_association library small_definitions index) associations
      && all (is_valid_point library small_definitions index) materials)
validate_routing-is_valid_example =
    validate_routing-is_valid library small_definitions index associations materials

abbrev other_relation : DependencyRow
other_relation = record {
  id = 2;
  procedure_version_semantic_id = "v1";
  procedure_version_procedure_id = 1;
  target_procedure_id = 2;
  semantic_id = "advice";
  text_ar = "a";
  text_en = "b";
  relation = "advice";
  applicability = Object.dict Entries.end;
  satisfied_when = stored;
}

abbrev unsupported_relation : StoredRuleLoadDiagnostic
unsupported_relation = record {
  owner_id = "procedure_dependency:v1:advice";
  diagnostics =
      record { code = "unsupported_dependency_relation"; path = PathSegment.name "relation" ∷ [] }
      ∷ [];
}

relation_refused :
    validate_dependencies library small_definitions index (other_relation ∷ [])
    ≡ load_error (unsupported_relation ∷ [])
unfolding validate_dependencies sort
relation_refused = refl

validate_dependencies-load_error_example :
    (In unsupported_relation (unsupported_relation ∷ [])
      → (row : DependencyRow) × In row (other_relation ∷ [])
        × In unsupported_relation (dependency_outcome library small_definitions index row).reported)
    × ((row : DependencyRow)
        → In row (other_relation ∷ [])
        → In unsupported_relation (dependency_outcome library small_definitions index row).reported
        → In unsupported_relation (unsupported_relation ∷ []))
validate_dependencies-load_error_example =
    validate_dependencies-load_error library small_definitions index (other_relation ∷ [])
      (unsupported_relation ∷ []) unsupported_relation relation_refused
