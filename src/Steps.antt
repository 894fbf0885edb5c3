-- ===== src/Steps.antt =====
-- backend/planning/steps.py: the Steps of a plan.
pub mod Laws
use bardi.Prelude.{
  String, Bool, true, false, not, ◌&&◌, ◌||◌, Option, none, some, List, [], ◌∷◌, ◌++◌, map, int_lt,
  int_eq, str_eq, str_lt, one_of, is_some, is_empty, some_and, sort, if◌then◌else◌, Result, ok,
  ◌>>=◌, fold,
}
use bardi.KeySet
use bardi.KeySet.{KeySet}
use bardi.Calendar.{Date}
use bardi.Facts.{PreparedFacts}
use bardi.Evaluator.{is_true, is_false, is_unknown, TruthValue, Evaluation}
use bardi.Trust.{TrustAssessment, assess_trust}
use bardi.Catalog.{ProcedureVersionSnapshot, StepSnapshot}
use bardi.Public.{PublicStep, PublicSource}
use bardi.Provenance.{is_assert_current, supporting_sources}
use bardi.Items.{outside_interval, evaluate_optional}

-- The result, and the variables of the loop.
pub record StepSelection : Type 0 where
  pub items : List PublicStep
  pub missing_facts : KeySet
  pub trust_inconclusive : Bool
  pub basis_resolution_required : Bool
  pub applicability_inconclusive : Bool

abbrev empty : StepSelection
empty = record {
  items = [];
  missing_facts = [];
  trust_inconclusive = false;
  basis_resolution_required = false;
  applicability_inconclusive = false;
}

abbrev pub assess_step : Date → StepSnapshot → TrustAssessment
assess_step d item =
    assess_trust d
      (record {
        verified_on = item.verified_on;
        reverify_on = item.reverify_on;
        effective_from = none;
        effective_to = none;
        retrieved_on = none;
      })
      item.verification_state

abbrev pub public_step : Date → StepSnapshot → List PublicSource → PublicStep
public_step d item sources = record {
  id = item.semantic_id;
  text = item.text;
  phase = item.phase;
  sources = sources;
  freshness = (assess_step d item).freshness;
  scope = item.scope;
  eligibility_basis_id = item.eligibility_basis_id;
}

-- not asserted, or without support
unverified : StepSelection → Option KeySet → StepSelection
unverified s pending_missing = record s {
  trust_inconclusive = true;
  applicability_inconclusive = s.applicability_inconclusive || is_some pending_missing;
}

module _ (d : Date) where
  with_sources :
      StepSelection → StepSnapshot → Option KeySet → Option (List PublicSource) → StepSelection
  unfolding unverified
  with_sources s item pending_missing none = unverified s pending_missing
  with_sources s item (some missing) (some sources) = record s {
    missing_facts = KeySet.union missing s.missing_facts;
    applicability_inconclusive = s.applicability_inconclusive || is_empty missing;
  }
  with_sources s item none (some sources) = record s {
    items = s.items ++ (public_step d item sources ∷ []);
  }

  trusted : StepSelection → StepSnapshot → Option KeySet → StepSelection
  unfolding with_sources
  trusted s item pending_missing =
      if not (is_assert_current (assess_step d item).disposition)
      then unverified s pending_missing
      else with_sources s item pending_missing (supporting_sources d false item.evidence_links)

  by_value : StepSelection → StepSnapshot → KeySet → TruthValue → StepSelection
  unfolding trusted
  by_value s item missing is_unknown = trusted s item (some missing)
  by_value s item missing is_true = trusted s item none
  by_value s item missing is_false = s

  applied : StepSelection → StepSnapshot → Option Evaluation → StepSelection
  unfolding by_value
  applied s item none = trusted s item none
  applied s item (some e) = by_value s item e.missing_facts e.value

  evaluated : PreparedFacts → StepSelection → StepSnapshot → Result StepSelection
  unfolding applied
  evaluated facts s item = evaluate_optional item.applicability facts >>= λ e. ok (applied s item e)

  module _ (known matched : KeySet) (resolved : Bool) (facts : PreparedFacts) where
    -- One round of the loop. `resolved` says that `matched_basis_ids` is not None.
    select_step : StepSelection → StepSnapshot → Result StepSelection
    select_step s item =
        if not (one_of item.scope ("procedure" ∷ "eligibility_basis" ∷ []))
        then ok s
        else if outside_interval item.effective_from item.effective_to d
        then ok s
        else if not (str_eq item.scope "eligibility_basis")
        then evaluated facts s item
        else if not (some_and (λ b. KeySet.member b known) item.eligibility_basis_id)
            || not resolved
        then ok (record s { basis_resolution_required = true })
        else if not (some_and (λ b. KeySet.member b matched) item.eligibility_basis_id)
        then ok s
        else evaluated facts s item

-- `(phase_order, slot, semantic_id)`
step_before : StepSnapshot → StepSnapshot → Bool
step_before a b =
    int_lt a.phase_order b.phase_order
    || (int_eq a.phase_order b.phase_order
        && (int_lt a.slot b.slot || (int_eq a.slot b.slot && str_lt a.semantic_id b.semantic_id)))

abbrev pub matched_or_none : Option KeySet → KeySet
matched_or_none none = []
matched_or_none (some ids) = ids

unfoldable pub select_steps :
    ProcedureVersionSnapshot
    → PreparedFacts
    → Date
    → (matched_basis_ids : Option KeySet) → Result StepSelection
unfolding select_step step_before evaluated
select_steps version facts d matched_basis_ids =
    let known = KeySet.of_list (map (λ b. b.semantic_id) version.eligibility_bases) in
    fold (select_step d known (matched_or_none matched_basis_ids) (is_some matched_basis_ids) facts)
      empty (sort step_before version.steps)
