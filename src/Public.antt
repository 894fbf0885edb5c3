-- ===== src/Public.antt =====
-- backend/planning/public.py: the results of stateless planning.
use bardi.Prelude.{String, Bool, Option, List, ℤ}
use bardi.Dict.{Dict}
use bardi.Calendar.{Date}
use bardi.Facts.{FactKind, Object, PathSegment}
use bardi.Trust.{Freshness}
use bardi.Catalog.{LocalizedText}

pub data Locale : Type 0 where
  ar en : Locale

-- `__post_init__` refuses any other locale and any evaluation date that is not a date.
pub record PlanningInput : Type 0 where
  pub service_id : String
  pub facts : Dict Object
  pub locale : Locale
  pub evaluation_date : Date

pub record PublicDiagnostic : Type 0 where
  pub code : String
  pub path : List PathSegment

pub record AnswerDefinition : Type 0 where
  pub key : String
  pub kind : FactKind
  pub enum_options : List String
  pub minimum : Option ℤ

pub record PublicQuestion : Type 0 where
  pub id : String
  pub text : LocalizedText
  pub answers : List AnswerDefinition

pub record PublicSource : Type 0 where
  pub id : String
  pub authority_id : String
  pub title : String
  pub locator : String
  pub classification : String
  pub retrieved_on : Date

pub record PublicChecklistItem : Type 0 where
  pub id : String
  pub text : LocalizedText
  pub classification : String
  pub classification_label : LocalizedText
  pub quantity : ℤ
  pub original_quantity : ℤ
  pub copy_quantity : ℤ
  pub document_type_id : Option String
  pub scope : String
  pub sources : List PublicSource
  pub freshness : Freshness
  pub eligibility_basis_id : Option String

pub record PublicStep : Type 0 where
  pub id : String
  pub text : LocalizedText
  pub phase : String
  pub sources : List PublicSource
  pub freshness : Freshness
  pub scope : String
  pub eligibility_basis_id : Option String

pub record PublicWarning : Type 0 where
  pub id : String
  pub text : LocalizedText
  pub severity : String
  pub kind : String
  pub role : String
  pub sources : List PublicSource
  pub freshness : Freshness

pub record PublicFee : Type 0 where
  pub id : String
  pub text : LocalizedText
  pub value_state : String
  pub amount : Option ℤ
  pub minimum_amount : Option ℤ
  pub maximum_amount : Option ℤ
  pub currency : String
  pub fee_type : String
  pub current_value_unknown : Bool
  pub sources : List PublicSource
  pub freshness : Freshness

pub record PublicEligibilityBasis : Type 0 where
  pub id : String
  pub text : LocalizedText
  pub sources : List PublicSource
  pub freshness : Freshness
  pub checklist_item_ids : List String
  pub step_ids : List String

pub data ProcedureDependencyStatus : Type 0 where
  satisfied blocking unsupported_target inconclusive : ProcedureDependencyStatus

-- `relation` is always "blocking_prerequisite".
pub record PublicProcedureDependency : Type 0 where
  pub id : String
  pub text : LocalizedText
  pub relation : String
  pub status : ProcedureDependencyStatus
  pub target_procedure_id : String
  pub target_procedure : LocalizedText
  pub target_procedure_version_id : Option String
  pub sources : List PublicSource
  pub freshness : Freshness

pub record PublicServicePoint : Type 0 where
  pub service_point_id : String
  pub service_point_version_id : String
  pub association_id : String
  pub name : LocalizedText
  pub address : LocalizedText
  pub availability : String
  pub effective_from : Option Date
  pub effective_to : Option Date
  pub sources : List PublicSource

pub data RoutingStatus : Type 0 where
  resolved partially_resolved unresolved : RoutingStatus

pub record PublicRouting : Type 0 where
  pub status : RoutingStatus
  pub destinations : List PublicServicePoint
  pub verification_sources : List PublicSource

pub data InconclusiveSection : Type 0 where
  checklist_items steps : InconclusiveSection

pub record PlanResult : Type 0 where
  pub service_id : String
  pub procedure_id : String
  pub procedure_version_id : String
  pub title : LocalizedText
  pub checklist_items : List PublicChecklistItem
  pub steps : List PublicStep
  pub warnings : List PublicWarning
  pub fees : List PublicFee
  pub eligibility_bases : List PublicEligibilityBasis
  pub inconclusive_basis_ids : List String
  pub dependencies : List PublicProcedureDependency
  pub routing : PublicRouting
  pub inconclusive_sections : List InconclusiveSection

pub data PlanningResult : Type 0 where
  next_question : (service_id : String) → PublicQuestion → PlanningResult
  plan : PlanResult → PlanningResult
  inconclusive : (reason : String) → PlanningResult
  invalid : List PublicDiagnostic → PlanningResult
