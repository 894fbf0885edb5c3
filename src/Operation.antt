-- ===== src/Operation.antt =====
-- backend/planning/operation.py: the stages of `plan_stateless`, last stage first.
pub mod Plans
pub mod Prepared
pub mod Soundness
use Prim.Native.Char.{code}
use bardi.Prelude.{
  String, Bool, true, false, not, ◌&&◌, ◌||◌, Option, none, some, List, [], ◌∷◌, ◌++◌, map, find,
  filter, eqb, str_eq, some_and, is_empty, if◌then◌else◌, Result, ok, raise, ◌>>=◌,
}
use bardi.KeySet.{KeySet}
use bardi.Dict
use bardi.Dict.{Dict}
use bardi.Calendar.{Date}
use bardi.Facts.{FactValue, Object, PreparedFacts, ValidationDiagnostic, validate_submitted_facts}
use bardi.Evaluator.{TruthValue, is_true, is_false, is_unknown, evaluate}
use bardi.Catalog.{KnowledgeSnapshot, ServiceSnapshot, QuestionSnapshot, ProcedureVersionSnapshot}
use bardi.Public.{
  PlanningInput, PlanningResult, PublicDiagnostic, PublicEligibilityBasis, InconclusiveSection,
}
use bardi.CasePreparation.{CasePreparationOutcome, prepare_case}
use bardi.Questions.{ConsequentialQuestion, pick_consequential_question, question_result}
use bardi.Selection.{SelectionOutcome, select_procedure}
use bardi.Versions.{ProcedureVersionResolution, resolve_procedure_version}
use bardi.Bases.{EligibilityBasisSelection, select_eligibility_bases}
use bardi.Dependencies.{ProcedureDependencySelection, select_procedure_dependencies}
use bardi.Checklists.{ChecklistSelection, select_checklist_items}
use bardi.Steps.{StepSelection, select_steps}
use bardi.Fees.{FeeSelection, select_fees}
use bardi.Warnings.{select_warnings}
use bardi.Routing.{select_service_points}

abbrev pub configuration_invalid : PlanningResult
configuration_invalid =
    PlanningResult.invalid (record { code = "knowledge_configuration_invalid"; path = [] } ∷ [])

-- `code.partition(":")[0]`
before_colon : String → String
before_colon String.[] = ""
before_colon (String.◌∷◌ c s) =
    let rest = before_colon s in if eqb (code c) 58 then "" else String.◌∷◌ c rest

unfoldable pub public_diagnostics : List ValidationDiagnostic → List PublicDiagnostic
unfolding before_colon
public_diagnostics = map (λ item. record { code = before_colon item.code; path = item.path })

-- `replace(basis, checklist_item_ids=…, step_ids=…)`
with_items : ChecklistSelection → StepSelection → PublicEligibilityBasis → PublicEligibilityBasis
with_items checklist steps basis = record basis {
  checklist_item_ids =
      map (λ item. item.id)
        (filter (λ item. some_and (λ id. str_eq id basis.id) item.eligibility_basis_id)
          checklist.items);
  step_ids =
      map (λ item. item.id)
        (filter (λ item. some_and (λ id. str_eq id basis.id) item.eligibility_basis_id)
          steps.items);
}

inconclusive_sections : ChecklistSelection → StepSelection → List InconclusiveSection
inconclusive_sections checklist steps =
    (if checklist.trust_inconclusive then InconclusiveSection.checklist_items ∷ [] else [])
    ++ (if steps.trust_inconclusive then InconclusiveSection.steps ∷ [] else [])

module _ (snapshot : KnowledgeSnapshot) (d : Date) (service : ServiceSnapshot) where
  asked : ConsequentialQuestion → PlanningResult
  asked q = if not (is_empty q.diagnostic_codes) then configuration_invalid else elim q.question [
    | none ↦ configuration_invalid
    | some question ↦ question_result snapshot service.semantic_id question
  ]

  module _ (facts : PreparedFacts) where
    -- The Question that each stage asks for its missing Facts.
    unfoldable pub ask : String → KeySet → Result PlanningResult
    unfolding asked
    ask diagnostic_prefix missing_facts =
        pick_consequential_question diagnostic_prefix snapshot service facts missing_facts >>= λ q.
        ok (asked q)

    module _ (procedure_id : String) (version : ProcedureVersionSnapshot) where
      build_plan :
          EligibilityBasisSelection
          → ProcedureDependencySelection
          → ChecklistSelection
          → StepSelection
          → FeeSelection
          → Result PlanningResult
      unfolding with_items inconclusive_sections
      build_plan bases dependencies checklist steps fees =
          select_warnings version facts d >>= λ warnings.
          select_service_points snapshot version facts d >>= λ routing. ok (
            PlanningResult.plan (record {
              service_id = service.semantic_id;
              procedure_id = procedure_id;
              procedure_version_id = version.semantic_id;
              title = version.text;
              checklist_items = checklist.items;
              steps = steps.items;
              warnings = warnings;
              fees = fees.items;
              eligibility_bases = map (with_items checklist steps) bases.bases;
              inconclusive_basis_ids = bases.inconclusive_basis_ids;
              dependencies = dependencies.dependencies;
              routing = routing;
              inconclusive_sections = inconclusive_sections checklist steps;
            }))

      plan_fees :
          EligibilityBasisSelection
          → ProcedureDependencySelection
          → ChecklistSelection
          → StepSelection
          → Result PlanningResult
      unfolding build_plan
      plan_fees bases dependencies checklist steps =
          select_fees version facts d (some bases.trusted_matched_basis_ids) >>= λ fees.
          if fees.basis_resolution_required
          then ok configuration_invalid
          else if not (is_empty fees.missing_facts)
          then ask "missing_fee_question" fees.missing_facts
          else if fees.applicability_inconclusive
          then ok (PlanningResult.inconclusive "fee_applicability_unknown")
          else build_plan bases dependencies checklist steps fees

      plan_steps :
          EligibilityBasisSelection
          → ProcedureDependencySelection
          → ChecklistSelection
          → Result PlanningResult
      unfolding plan_fees
      plan_steps bases dependencies checklist =
          select_steps version facts d (some bases.trusted_matched_basis_ids) >>= λ steps.
          if steps.basis_resolution_required
          then ok configuration_invalid
          else if not (is_empty steps.missing_facts)
          then ask "missing_step_question" steps.missing_facts
          else if steps.applicability_inconclusive
          then ok (PlanningResult.inconclusive "step_applicability_unknown")
          else plan_fees bases dependencies checklist steps

      plan_checklist :
          EligibilityBasisSelection → ProcedureDependencySelection → Result PlanningResult
      unfolding plan_steps
      plan_checklist bases dependencies =
          select_checklist_items version facts d (some bases.trusted_matched_basis_ids)
          >>= λ checklist.
              if checklist.basis_resolution_required
              then ok configuration_invalid
              else if not (is_empty checklist.missing_facts)
              then ask "missing_checklist_question" checklist.missing_facts
              else if checklist.applicability_inconclusive
              then ok (PlanningResult.inconclusive "checklist_applicability_unknown")
              else plan_steps bases dependencies checklist

      plan_dependencies : EligibilityBasisSelection → Result PlanningResult
      unfolding plan_checklist
      plan_dependencies bases =
          select_procedure_dependencies snapshot version facts d >>= λ dependencies.
          if dependencies.configuration_invalid
          then ok configuration_invalid
          else if not (is_empty dependencies.missing_facts)
          then ask "missing_dependency_question" dependencies.missing_facts
          else plan_checklist bases dependencies

      pub plan_bases : Result PlanningResult
      unfolding plan_dependencies
      plan_bases = select_eligibility_bases version facts d >>= λ bases.
          if bases.configuration_invalid
          then ok configuration_invalid
          else if not (is_empty bases.missing_facts)
          then ask "missing_eligibility_basis_question" bases.missing_facts
          else if bases.no_applicable_basis
          then ok (PlanningResult.inconclusive "no_applicable_eligibility_basis")
          else plan_dependencies bases

      plan_applicable : KeySet → TruthValue → Result PlanningResult
      unfolding plan_bases
      plan_applicable missing_facts is_true = plan_bases
      plan_applicable missing_facts is_false =
          ok (PlanningResult.inconclusive "procedure_version_not_applicable")
      plan_applicable missing_facts is_unknown =
          if is_empty missing_facts
          then ok (PlanningResult.inconclusive "procedure_version_applicability_unknown")
          else ask "missing_procedure_version_question" missing_facts

    plan_version : String → ProcedureVersionResolution → Result PlanningResult
    unfolding plan_applicable
    plan_version procedure_id (ProcedureVersionResolution.configuration_defect codes ids upcoming) =
        ok configuration_invalid
    plan_version procedure_id (ProcedureVersionResolution.unavailable reason_code upcoming) =
        ok (PlanningResult.inconclusive reason_code)
    plan_version procedure_id (ProcedureVersionResolution.resolved version upcoming historical) =
        evaluate version.applicability facts.values facts.submitted_keys >>= λ e.
        plan_applicable procedure_id version e.missing_facts e.value

    plan_selected : SelectionOutcome → Result PlanningResult
    unfolding plan_version
    plan_selected (SelectionOutcome.selection_question question evaluations) =
        ok (question_result snapshot service.semantic_id question)
    plan_selected (SelectionOutcome.selection_configuration_defect codes evaluations) =
        ok configuration_invalid
    plan_selected (SelectionOutcome.selection_unsupported reason_code evaluations) =
        ok (PlanningResult.inconclusive reason_code)
    plan_selected (SelectionOutcome.selection_inconclusive reason_code ids evaluations) =
        ok (PlanningResult.inconclusive reason_code)
    plan_selected (SelectionOutcome.procedure_selected procedure_id evaluations) =
        plan_version procedure_id (resolve_procedure_version snapshot procedure_id d none)

  plan_prepared : CasePreparationOutcome → Result PlanningResult
  unfolding plan_selected
  plan_prepared (CasePreparationOutcome.configuration_defect codes) = ok configuration_invalid
  plan_prepared (CasePreparationOutcome.invalid diagnostics) =
      ok (PlanningResult.invalid (public_diagnostics diagnostics))
  plan_prepared (CasePreparationOutcome.success facts) =
      select_procedure snapshot facts service.semantic_id >>= λ selection.
      plan_selected facts selection

-- The validated Facts as the objects that `prepare_case` validates again.
pub as_objects : Dict FactValue → Dict Object
as_objects [] = []
as_objects ((key, v) ∷ rest) = (key, Object.value v) ∷ as_objects rest

plan_validated :
    KnowledgeSnapshot
    → PlanningInput
    → ServiceSnapshot
    → List ValidationDiagnostic
    → Option (Dict FactValue)
    → Result PlanningResult
unfolding plan_prepared as_objects
plan_validated snapshot planning_input service diagnostics none =
    ok (PlanningResult.invalid (public_diagnostics diagnostics))
plan_validated snapshot planning_input service diagnostics (some facts) =
    prepare_case snapshot.fact_definitions service (as_objects facts) planning_input.evaluation_date
    >>= λ preparation. plan_prepared snapshot planning_input.evaluation_date service preparation

plan_found : KnowledgeSnapshot → PlanningInput → Option ServiceSnapshot → Result PlanningResult
unfolding plan_validated
plan_found snapshot planning_input none = ok (PlanningResult.inconclusive "unknown_service")
plan_found snapshot planning_input (some service) =
    let validation = validate_submitted_facts snapshot.fact_definitions planning_input.facts in
    if not service.is_active
    then ok (PlanningResult.inconclusive "inactive_service")
    else plan_validated snapshot planning_input service validation.diagnostics validation.facts

unfoldable pub plan_stateless : KnowledgeSnapshot → PlanningInput → Result PlanningResult
unfolding plan_found
plan_stateless snapshot planning_input =
    plan_found snapshot planning_input
      (find (λ item. str_eq item.semantic_id planning_input.service_id) snapshot.services)
