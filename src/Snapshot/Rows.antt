-- ===== src/Snapshot/Rows.antt =====
-- backend/knowledge/snapshot_policy.py: the captured rows of the catalog.
use bardi.Prelude.{ℕ, String, Bool, Option, List, ℤ}
use bardi.Facts.{Definitions, Object}
use bardi.Rules.{Predicate}
use bardi.Snapshot.{Table}
use bardi.Snapshot.Evidence.{EvidenceIndex}

pub record ServiceRow : Type 0 where
  pub semantic_id : String
  pub is_active : Bool

-- `procedure_version_semantic_id` stands for the column `procedure_version__semantic_id`, and the
-- other columns that follow a reference are spelled likewise.
pub record ClaimRow : Type 0 where
  pub id : ℕ
  pub procedure_version_semantic_id : String
  pub semantic_id : String
  pub applicability : Object
  pub verification_state : String

pub record StepRow : Type 0 where
  pub claim : ClaimRow
  pub scope : String
  pub eligibility_basis_id : Option ℕ
  pub eligibility_basis_procedure_version_id : Option ℕ
  pub procedure_version_id : ℕ

pub record FeeRow : Type 0 where
  pub step : StepRow
  pub currency : String
  pub fee_type : String
  pub value_state : String
  pub amount : Option ℤ
  pub minimum_amount : Option ℤ
  pub maximum_amount : Option ℤ

pub record WarningRow : Type 0 where
  pub claim : ClaimRow
  pub kind : String

pub record CandidateRow : Type 0 where
  pub service_semantic_id : String
  pub procedure_semantic_id : String
  pub selection_predicate : Object

pub record VersionRow : Type 0 where
  pub semantic_id : String
  pub applicability : Object

pub record ContradictionRow : Type 0 where
  pub semantic_id : String
  pub service_semantic_id : String
  pub condition : Object

pub record ContradictionFactRow : Type 0 where
  pub contradiction_semantic_id : String
  pub fact_key : String

pub record QuestionRow : Type 0 where
  pub semantic_id : String
  pub service_semantic_id : String
  pub fact_key : String

pub record QuestionFactRow : Type 0 where
  pub question_semantic_id : String
  pub fact_key : String

pub record CoreInputs : Type 0 where
  pub definitions : Definitions
  pub published_definitions : Definitions
  pub evidence : EvidenceIndex
  pub services : List ServiceRow
  pub checklist_items : List ClaimRow
  pub steps : List StepRow
  pub fees : List FeeRow
  pub warnings : List WarningRow
  pub candidates : List CandidateRow
  pub versions : List VersionRow
  pub contradictions : List ContradictionRow
  pub contradiction_facts : List ContradictionFactRow
  pub questions : List QuestionRow
  pub question_facts : List QuestionFactRow

pub record DecodedCoreRules : Type 0 where
  pub checklist_items : Table ℕ (Option Predicate)
  pub steps : Table ℕ (Option Predicate)
  pub fees : Table ℕ (Option Predicate)
  pub warnings : Table ℕ (Option Predicate)
  pub candidates : Table (String × String) Predicate
  pub versions : Table String Predicate
  pub contradictions : Table String Predicate

pub record BasisRow : Type 0 where
  pub id : ℕ
  pub procedure_version_semantic_id : String
  pub semantic_id : String
  pub text_ar : String
  pub text_en : String
  pub reachability : Object
  pub qualification : Object

pub record DependencyRow : Type 0 where
  pub id : ℕ
  pub procedure_version_semantic_id : String
  pub procedure_version_procedure_id : ℕ
  pub target_procedure_id : ℕ
  pub semantic_id : String
  pub text_ar : String
  pub text_en : String
  pub relation : String
  pub applicability : Object
  pub satisfied_when : Object

pub record AssociationRow : Type 0 where
  pub claim : ClaimRow
  pub service_point_version_id : ℕ

pub record MaterialRow : Type 0 where
  pub id : ℕ
  pub semantic_id : String
  pub address_ar : String
  pub address_en : String
  pub availability : String
  pub verification_state : String

pub record DecodedBasisRules : Type 0 where
  pub reachability : Option Predicate
  pub qualification : Predicate

pub record DecodedDependencyRules : Type 0 where
  pub applicability : Option Predicate
  pub satisfied_when : Predicate
