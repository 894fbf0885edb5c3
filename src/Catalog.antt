-- ===== src/Catalog.antt =====
-- backend/planning/catalog.py: the immutable snapshot of the authored knowledge.
use bardi.Prelude.{String, Bool, Option, List, ℕ, ℤ}
use bardi.Calendar.{Date}
use bardi.Facts.{Definitions, Object}
use bardi.Rules.{Predicate}
use bardi.Trust.{VerificationState}

pub record LocalizedText : Type 0 where
  pub ar : String
  pub en : String

pub record ProcedureCandidateSnapshot : Type 0 where
  pub procedure_semantic_id : String
  pub text : LocalizedText
  pub selection_predicate : Predicate

pub record QuestionSnapshot : Type 0 where
  pub semantic_id : String
  pub text : LocalizedText
  pub priority : ℤ
  pub primary_fact_key : String
  pub resolved_fact_keys : List String

pub record ContradictionSnapshot : Type 0 where
  pub semantic_id : String
  pub condition : Predicate
  pub fact_keys : List String

pub record ServiceSnapshot : Type 0 where
  pub semantic_id : String
  pub text : LocalizedText
  pub candidates : List ProcedureCandidateSnapshot
  pub questions : List QuestionSnapshot
  pub contradictions : List ContradictionSnapshot
  pub is_active : Bool

pub record AuthoritySnapshot : Type 0 where
  pub semantic_id : String
  pub name : LocalizedText

pub record SourceSnapshot : Type 0 where
  pub semantic_id : String
  pub authority : AuthoritySnapshot
  pub title : String
  pub locator : String
  pub classification : String
  pub retrieved_on : Date
  pub published_on : Option Date
  pub effective_from : Option Date
  pub effective_to : Option Date
  pub reverify_on : Option Date
  pub observation_date : Option Date
  pub observation_context : String

pub record EvidenceLinkSnapshot : Type 0 where
  pub passage : String
  pub location : String
  pub applicability_context : String
  pub support_status : String
  pub verification_state : VerificationState
  pub sources : List SourceSnapshot
  pub effective_from : Option Date
  pub effective_to : Option Date
  pub retrieved_on : Option Date
  pub verified_on : Option Date
  pub reverify_on : Option Date
  pub semantic_id : String

pub record ChecklistItemSnapshot : Type 0 where
  pub semantic_id : String
  pub text : LocalizedText
  pub classification : String
  pub document_type_id : Option String
  pub quantity : ℤ
  pub original_quantity : ℤ
  pub copy_quantity : ℤ
  pub display_order : ℤ
  pub applicability : Option Predicate
  pub scope : String
  pub scope_reference : String
  pub effective_from : Option Date
  pub effective_to : Option Date
  pub verification_state : VerificationState
  pub verified_on : Option Date
  pub reverify_on : Option Date
  pub evidence_links : List EvidenceLinkSnapshot

pub record EligibilityBasisSnapshot : Type 0 where
  pub semantic_id : String
  pub text : LocalizedText
  pub reachability : Option Predicate
  pub qualification : Option Predicate
  pub display_order : ℤ
  pub effective_from : Option Date
  pub effective_to : Option Date
  pub verification_state : VerificationState
  pub verified_on : Option Date
  pub reverify_on : Option Date
  pub evidence_links : List EvidenceLinkSnapshot

pub record StepSnapshot : Type 0 where
  pub semantic_id : String
  pub text : LocalizedText
  pub phase : String
  pub phase_order : ℤ
  pub slot : ℤ
  pub applicability : Option Predicate
  pub scope : String
  pub eligibility_basis_id : Option String
  pub effective_from : Option Date
  pub effective_to : Option Date
  pub verification_state : VerificationState
  pub verified_on : Option Date
  pub reverify_on : Option Date
  pub evidence_links : List EvidenceLinkSnapshot

pub record FeeSnapshot : Type 0 where
  pub semantic_id : String
  pub text : LocalizedText
  pub value_state : String
  pub amount : Option ℤ
  pub minimum_amount : Option ℤ
  pub maximum_amount : Option ℤ
  pub currency : String
  pub fee_type : String
  pub display_order : ℤ
  pub applicability : Option Predicate
  pub scope : String
  pub eligibility_basis_id : Option String
  pub effective_from : Option Date
  pub effective_to : Option Date
  pub verification_state : VerificationState
  pub verified_on : Option Date
  pub reverify_on : Option Date
  pub evidence_links : List EvidenceLinkSnapshot

pub record WarningSnapshot : Type 0 where
  pub semantic_id : String
  pub text : LocalizedText
  pub severity : String
  pub kind : String
  pub role : String
  pub display_order : ℤ
  pub applicability : Option Predicate
  pub effective_from : Option Date
  pub effective_to : Option Date
  pub verification_state : VerificationState
  pub verified_on : Option Date
  pub reverify_on : Option Date
  pub evidence_links : List EvidenceLinkSnapshot

pub record ProcedureDependencySnapshot : Type 0 where
  pub semantic_id : String
  pub text : LocalizedText
  pub target_procedure_id : String
  pub target_procedure_text : LocalizedText
  pub relation : String
  pub applicability : Option Predicate
  pub satisfied_when : Option Predicate
  pub display_order : ℤ
  pub effective_from : Option Date
  pub effective_to : Option Date
  pub verification_state : VerificationState
  pub verified_on : Option Date
  pub reverify_on : Option Date
  pub evidence_links : List EvidenceLinkSnapshot

pub record ServicePointSnapshot : Type 0 where
  pub semantic_id : String
  pub text : LocalizedText

pub record ServicePointVersionSnapshot : Type 0 where
  pub semantic_id : String
  pub service_point_id : String
  pub address : LocalizedText
  pub availability : String
  pub effective_from : Option Date
  pub effective_to : Option Date
  pub verification_state : VerificationState
  pub verified_on : Option Date
  pub reverify_on : Option Date
  pub evidence_links : List EvidenceLinkSnapshot

pub record ProcedureServicePointAssociationSnapshot : Type 0 where
  pub semantic_id : String
  pub service_point_version_id : String
  pub applicability : Predicate
  pub effective_from : Option Date
  pub effective_to : Option Date
  pub verification_state : VerificationState
  pub verified_on : Option Date
  pub reverify_on : Option Date
  pub evidence_links : List EvidenceLinkSnapshot

-- A field that should hold a date, which the version resolver checks by `type(x) is date`.
-- `not_a_date` is a value of another type.
pub data DateField : Type 0 where
  no_date : DateField
  a_date : Date → DateField
  not_a_date : DateField

-- `published_at` is a datetime, which the planner does not read.
pub record ProcedureVersionSnapshot : Type 0 where
  pub semantic_id : String
  pub procedure_semantic_id : String
  pub text : LocalizedText
  pub applicability : Predicate
  pub rules_contract_version : String
  pub state : String
  pub effective_from : DateField
  pub effective_to : DateField
  pub published_at : Option Object
  pub published_by_id : Option ℕ
  pub checklist_items : List ChecklistItemSnapshot
  pub eligibility_bases : List EligibilityBasisSnapshot
  pub steps : List StepSnapshot
  pub warnings : List WarningSnapshot
  pub fees : List FeeSnapshot
  pub dependencies : List ProcedureDependencySnapshot
  pub service_point_associations : List ProcedureServicePointAssociationSnapshot

pub record KnowledgeSnapshot : Type 0 where
  pub fact_definitions : Definitions
  pub services : List ServiceSnapshot
  pub procedure_versions : List ProcedureVersionSnapshot
  pub service_points : List ServicePointSnapshot
  pub service_point_versions : List ServicePointVersionSnapshot
