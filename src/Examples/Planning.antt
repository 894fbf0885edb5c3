-- ===== src/Examples/Planning.antt =====
-- Runs of the planner on a small catalog, and its laws at them.
use bardi.Prelude.{◌≡◌, refl, String, true, false, none, some, List, [], ◌∷◌, In, All, ◌⊎◌, ok}
use bardi.Public.{PlanningResult}
use bardi.Operation.{plan_stateless}
use bardi.Prelude.{fold, sort, traverse}
use bardi.KeySet
use bardi.Dict
use bardi.Calendar.{date_lt, date_eq}
use bardi.Facts.{validate_submitted_facts, value_fits, validate_from}
use bardi.Facts.Registry.{fact_definitions}
use bardi.Trust.{assess_trust}
use bardi.Provenance.{
  public_source, source_is_current, link_is_current, claim_sources, supporting_sources, put_sources,
}
use bardi.Evaluator.{evaluate, evaluate_trace, evaluate_leaf}
use bardi.CasePreparation.{
  prepare_case, incompatible_keys, derive_all, contradictory_keys, derived_definition_is_compatible,
  derive,
}
use bardi.Selection.{select_procedure, evaluate_candidates}
use bardi.Versions.{
  resolve_procedure_version, versions_of, version_diagnostics, conflicting, contains, overlap,
  resolve_current,
}
use bardi.Items.{evaluate_optional}
use bardi.Bases.{select_eligibility_bases}
use bardi.Dependencies.{select_procedure_dependencies}
use bardi.Checklists.{ChecklistSelection, select_checklist_items, public_item}
use bardi.Steps.{StepSelection, select_steps}
use bardi.Fees.{FeeSelection, select_fees, public_fee}
use bardi.Warnings.{select_warnings}
use bardi.Routing.{select_service_points, route_association}
use bardi.Catalog.{ServiceSnapshot, StepSnapshot, ChecklistItemSnapshot, FeeSnapshot}
use bardi.KeySet.{KeySet}
use bardi.Dict.{Dict}
use bardi.Evaluator.{TruthValue, EvaluationTrace, Traces}
use bardi.Rules.{RuleOperator, Operand}
use bardi.Facts.{FactValue}
use bardi.Selection.{SelectionOutcome, CandidateEvaluation}
use bardi.Selection.Laws.{IsTheOneMatch, select_procedure-selected}
use bardi.Versions.Laws.{Promises, resolve_procedure_version-Promises}
use bardi.Checklists.Laws as ChecklistLaws
use bardi.Steps.Laws as StepLaws
use bardi.Fees.Laws as FeeLaws
use bardi.Operation.Soundness.{IsSound, plan_stateless-IsSound}
use bardi.Examples.Data.{
  snapshot, planning_input, shown_plan, facts, today, version, fee, shown_items, shown_steps,
  shown_fees,
}

the_run : plan_stateless snapshot planning_input ≡ ok (PlanningResult.plan shown_plan)
unfolding plan_stateless validate_submitted_facts validate_from fact_definitions value_fits
    prepare_case incompatible_keys derive_all contradictory_keys select_procedure
    evaluate_candidates evaluate evaluate_trace evaluate_leaf derived_definition_is_compatible
    resolve_procedure_version select_eligibility_bases select_procedure_dependencies
    select_checklist_items select_steps select_fees select_warnings select_service_points
    supporting_sources assess_trust date_lt fold sort Dict.get Dict.put Dict.values Dict.keys
    KeySet.member KeySet.add KeySet.union KeySet.of_list KeySet.difference versions_of
    version_diagnostics conflicting contains overlap resolve_current evaluate_optional public_item
    public_fee public_source source_is_current link_is_current claim_sources traverse derive date_eq
    route_association put_sources
the_run = refl

abbrev leaf : String → TruthValue → EvaluationTrace
leaf expected v =
    EvaluationTrace.trace
      (record {
        op = RuleOperator.eq;
        result = v;
        fact_key = some "citizenship";
        fact_present = some true;
        submitted = some true;
        actual_value = some (FactValue.str "egyptian");
        expected_value = Operand.one (FactValue.str expected);
        missing_facts = [];
        affected_result = true;
      })
      Traces.nil

abbrev evaluations : List CandidateEvaluation
evaluations =
    record {
      candidate_semantic_id = "passport_abroad";
      evaluation = record {
        value = TruthValue.is_false;
        missing_facts = [];
        trace = leaf "other" TruthValue.is_false;
      };
    }
    ∷ record {
      candidate_semantic_id = "passport_first";
      evaluation = record {
        value = TruthValue.is_true;
        missing_facts = [];
        trace = leaf "egyptian" TruthValue.is_true;
      };
    }
    ∷ []

selection_run :
    select_procedure snapshot facts "passport"
    ≡ ok (SelectionOutcome.procedure_selected "passport_first" evaluations)
unfolding select_procedure evaluate_candidates evaluate evaluate_trace evaluate_leaf traverse fold
    sort Dict.get KeySet.member KeySet.add KeySet.union KeySet.of_list
selection_run = refl

abbrev checklist : ChecklistSelection
checklist = record {
  items = shown_items;
  missing_facts = [];
  trust_inconclusive = false;
  basis_resolution_required = false;
  applicability_inconclusive = false;
}

abbrev steps : StepSelection
steps = record {
  items = shown_steps;
  missing_facts = [];
  trust_inconclusive = false;
  basis_resolution_required = false;
  applicability_inconclusive = false;
}

abbrev fees : FeeSelection
fees = record {
  items = shown_fees;
  missing_facts = [];
  basis_resolution_required = false;
  applicability_inconclusive = false;
}

checklist_run : select_checklist_items version facts today (some []) ≡ ok checklist
unfolding select_checklist_items public_item fold sort evaluate_optional supporting_sources
    put_sources public_source source_is_current link_is_current assess_trust date_lt Dict.put
    Dict.values
checklist_run = refl

steps_run : select_steps version facts today (some []) ≡ ok steps
unfolding select_steps fold sort evaluate_optional supporting_sources put_sources public_source
    source_is_current link_is_current assess_trust date_lt Dict.put Dict.values
steps_run = refl

fees_run : select_fees version facts today (some []) ≡ ok fees
unfolding select_fees public_fee evaluate evaluate_trace evaluate_leaf Dict.get KeySet.member fold
    sort evaluate_optional supporting_sources put_sources public_source source_is_current
    link_is_current assess_trust date_lt Dict.put Dict.values
fees_run = refl

select_checklist_items-IsJustified_example :
    All
      (λ p.
        (item : ChecklistItemSnapshot) × In item version.checklist_items
        × ChecklistLaws.IsJustified facts today [] item p)
      shown_items
select_checklist_items-IsJustified_example =
    ChecklistLaws.select_checklist_items-IsJustified version facts today (some []) checklist
      checklist_run

select_steps-IsJustified_example :
    All
      (λ p.
        (item : StepSnapshot) × In item version.steps × StepLaws.IsJustified facts today [] item p)
      shown_steps
select_steps-IsJustified_example =
    StepLaws.select_steps-IsJustified version facts today (some []) steps steps_run

select_fees-IsJustified_example :
    All
      (λ p. (item : FeeSnapshot) × In item version.fees × FeeLaws.IsJustified facts today [] item p)
      shown_fees
select_fees-IsJustified_example =
    FeeLaws.select_fees-IsJustified version facts today (some []) fees fees_run

public_fee-shows_example :
    FeeLaws.IsSupported today fee (public_fee today fee) ⊎ FeeLaws.IsHidden (public_fee today fee)
public_fee-shows_example = FeeLaws.public_fee-shows today fee

plan_stateless-IsSound_example : IsSound snapshot "passport" planning_input.facts today shown_plan
plan_stateless-IsSound_example = plan_stateless-IsSound snapshot planning_input shown_plan the_run

resolve_procedure_version-Promises_example :
    Promises snapshot "passport_first" today
      (resolve_procedure_version snapshot "passport_first" today none)
resolve_procedure_version-Promises_example =
    resolve_procedure_version-Promises snapshot "passport_first" today

select_procedure-selected_example :
    (s : ServiceSnapshot) × In s snapshot.services
    × (s.semantic_id ≡ "passport")
    × (s.is_active ≡ true)
    × IsTheOneMatch facts s "passport_first"
select_procedure-selected_example =
    select_procedure-selected snapshot facts "passport" "passport_first" evaluations selection_run
