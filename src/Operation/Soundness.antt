-- ===== src/Operation/Soundness.antt =====
-- What stands behind a plan: its Service, Procedure, Procedure Version and items.
use bardi.Prelude.{
  ◌≡◌, refl, inl, inr, subst, true, not, Option, none, some, List, find, String, str_eq, eq_iff, In,
  find-In, ok, >>=-eq-ok, ok-injective, if-cases, arith,
}
use bardi.Prelude.{sym, ◌∙◌, some_inj}
use bardi.Facts.{Object}
use bardi.Operation.Prepared.{IsPrepared, prepare_case-IsPrepared}
use bardi.KeySet.{KeySet}
use bardi.Dict.{Dict}
use bardi.Calendar.{Date}
use bardi.Facts.{FactValue, PreparedFacts, ValidationDiagnostic}
use bardi.Evaluator.{TruthValue, is_true, is_false, is_unknown, Evaluation, evaluate}
use bardi.Catalog.{KnowledgeSnapshot, ServiceSnapshot, ProcedureVersionSnapshot}
use bardi.Public.{PlanningInput, PlanningResult, PlanResult}
use bardi.CasePreparation.{CasePreparationOutcome, prepare_case}
use bardi.Selection.{SelectionOutcome, select_procedure}
use bardi.Selection.Laws.{IsTheOneMatch, select_procedure-found}
use bardi.Versions.{ProcedureVersionResolution, resolve_procedure_version}
use bardi.Versions.Laws.{InForce, Promises, resolve_procedure_version-Promises}
use bardi.Operation.{
  plan_bases, plan_applicable, plan_version, plan_selected, plan_prepared, plan_validated,
  plan_stateless, plan_found, as_objects,
}
use bardi.Operation.Plans.{IsFilled, plan_bases-IsFilled, ask_lem, question_result_lem}

-- The Procedure Version of the plan, from the resolution on.
pub record IsResolved (snapshot : KnowledgeSnapshot) (d : Date) (facts : PreparedFacts)
    (procedure : String) (p : PlanResult) : Type 0 where
  pub version : ProcedureVersionSnapshot
  pub in_force : InForce snapshot procedure d version
  pub only : (w : ProcedureVersionSnapshot) → InForce snapshot procedure d w → w ≡ version
  pub applies :
      (e : Evaluation) × (evaluate version.applicability facts.values facts.submitted_keys ≡ ok e)
      × (e.value ≡ is_true)
  pub filled : IsFilled facts d procedure version p

-- The whole of it.
pub record IsSound (snapshot : KnowledgeSnapshot) (id : String) (submitted : Dict Object) (d : Date)
    (p : PlanResult) : Type 0 where
  pub service : ServiceSnapshot
  pub facts : PreparedFacts
  pub procedure : String
  pub listed : In service snapshot.services
  pub requested : service.semantic_id ≡ id
  pub active : service.is_active ≡ true
  pub prepared : IsPrepared snapshot.fact_definitions service submitted d facts
  pub selected : IsTheOneMatch facts service procedure
  pub resolved : IsResolved snapshot d facts procedure p

module _ (snapshot : KnowledgeSnapshot) (d : Date) (service : ServiceSnapshot) where
  module _ (facts : PreparedFacts) (procedure : String) (p : PlanResult) where
    plan_applicable-cases :
        (version : ProcedureVersionSnapshot) (missing : KeySet) (v : TruthValue)
        → plan_applicable snapshot d service facts procedure version missing v
          ≡ ok (PlanningResult.plan p)
        → (v ≡ is_true)
          × (plan_bases snapshot d service facts procedure version ≡ ok (PlanningResult.plan p))
    unfolding plan_applicable
    plan_applicable-cases version missing is_true h = (refl, h)
    plan_applicable-cases version missing is_false h = cc
    plan_applicable-cases version missing is_unknown h =
        let no_question =
          ask_lem snapshot d service facts "missing_procedure_version_question" missing p in
        ground arith

    plan_version-IsResolved :
        (r : ProcedureVersionResolution)
        → Promises snapshot procedure d r
        → plan_version snapshot d service facts procedure r ≡ ok (PlanningResult.plan p)
        → IsResolved snapshot d facts procedure p
    unfolding plan_version
    plan_version-IsResolved (ProcedureVersionResolution.resolved version up historical)
          (in_force, only, now) h =
        let (e, q, k) =
          >>=-eq-ok (evaluate version.applicability facts.values facts.submitted_keys) _ h in
        let (v, built) = plan_applicable-cases version e.missing_facts e.value k in
        record {
          version = version;
          in_force = in_force;
          only = only;
          applies = (e, q, v);
          filled = plan_bases-IsFilled snapshot d service facts procedure version p built;
        }
    plan_version-IsResolved (ProcedureVersionResolution.unavailable reason up) promises h = cc
    plan_version-IsResolved (ProcedureVersionResolution.configuration_defect codes ids up) promises
          h =
        cc

  plan_selected-IsResolved :
      (facts : PreparedFacts) (p : PlanResult) (outcome : SelectionOutcome)
      → plan_selected snapshot d service facts outcome ≡ ok (PlanningResult.plan p)
      → (procedure : String) × (es : List _) × (outcome
          ≡ SelectionOutcome.procedure_selected procedure es)
        × IsResolved snapshot d facts procedure p
  unfolding plan_selected
  plan_selected-IsResolved facts p (SelectionOutcome.procedure_selected procedure es) h = (
    procedure,
    es,
    refl,
    plan_version-IsResolved facts procedure p (resolve_procedure_version snapshot procedure d none)
        (resolve_procedure_version-Promises snapshot procedure d) h,
  )
  plan_selected-IsResolved facts p (SelectionOutcome.selection_question question es) h =
      absurd (question_result_lem snapshot service.semantic_id question p (ok-injective h))
  plan_selected-IsResolved facts p (SelectionOutcome.selection_unsupported reason es) h = cc
  plan_selected-IsResolved facts p (SelectionOutcome.selection_inconclusive reason ids es) h = cc
  plan_selected-IsResolved facts p (SelectionOutcome.selection_configuration_defect codes es) h = cc

module _ (snapshot : KnowledgeSnapshot) (submitted : Dict Object) (d : Date) where
  plan_prepared-IsSound :
      (service : ServiceSnapshot) (p : PlanResult) (outcome : CasePreparationOutcome)
      → find (λ s. str_eq s.semantic_id service.semantic_id) snapshot.services ≡ some service
      → ((facts : PreparedFacts)
          → outcome ≡ CasePreparationOutcome.success facts
          → IsPrepared snapshot.fact_definitions service submitted d facts)
      → plan_prepared snapshot d service outcome ≡ ok (PlanningResult.plan p)
      → IsSound snapshot service.semantic_id submitted d p
  unfolding plan_prepared
  plan_prepared-IsSound service p (CasePreparationOutcome.success facts) requested prepared h =
      let (outcome, e, k) = >>=-eq-ok (select_procedure snapshot facts service.semantic_id) _ h in
      let (procedure, es, same, resolved) =
        plan_selected-IsResolved snapshot d service facts p outcome k in
      let (found, again, active, one) =
        select_procedure-found snapshot facts service.semantic_id procedure es
          (subst (λ o. select_procedure snapshot facts service.semantic_id ≡ ok o) same e) in
      let one_service : found ≡ service = some_inj (sym again ∙ requested) in
      let (listed, _) =
        find-In (λ s. str_eq s.semantic_id service.semantic_id) snapshot.services service
          requested in
      record {
        service = service;
        facts = facts;
        procedure = procedure;
        listed = listed;
        requested = refl;
        active = subst (λ s. s.is_active ≡ true) one_service active;
        prepared = prepared facts refl;
        selected = subst (λ s. IsTheOneMatch facts s procedure) one_service one;
        resolved = resolved;
      }
  plan_prepared-IsSound service p (CasePreparationOutcome.invalid diagnostics) requested prepared
        h =
      cc h
  plan_prepared-IsSound service p (CasePreparationOutcome.configuration_defect codes) requested
        prepared h =
      cc h

module _ (snapshot : KnowledgeSnapshot) (planning_input : PlanningInput) (p : PlanResult) where
  plan_validated-cases :
      (service : ServiceSnapshot) (diagnostics : List ValidationDiagnostic)
      (facts : Option (Dict FactValue))
      → plan_validated snapshot planning_input service diagnostics facts
        ≡ ok (PlanningResult.plan p)
      → (source : Dict FactValue) × (outcome : CasePreparationOutcome) × (facts ≡ some source)
        × (prepare_case snapshot.fact_definitions service
              (as_objects source)
              planning_input.evaluation_date
            ≡ ok outcome)
        × (plan_prepared snapshot planning_input.evaluation_date service outcome
            ≡ ok (PlanningResult.plan p))
  unfolding plan_validated
  plan_validated-cases service diagnostics none h = cc
  plan_validated-cases service diagnostics (some facts) h =
      let (outcome, e, k) =
        >>=-eq-ok
          (prepare_case snapshot.fact_definitions service (as_objects facts)
            planning_input.evaluation_date)
          _ h in
      (facts, outcome, refl, e, k)

  plan_found-IsSound :
      (found : Option ServiceSnapshot)
      → find (λ item. str_eq item.semantic_id planning_input.service_id) snapshot.services ≡ found
      → plan_found snapshot planning_input found ≡ ok (PlanningResult.plan p)
      → IsSound snapshot planning_input.service_id planning_input.facts
          planning_input.evaluation_date p
  unfolding plan_found
  plan_found-IsSound none e h = cc
  plan_found-IsSound (some service) e h = elim (if-cases (not service.is_active) _ _ h) [
    | inl (inactive, q) ↦ cc q
    | inr (active, q) ↦
        let d = planning_input.evaluation_date in
        let submitted = planning_input.facts in
        let definitions = snapshot.fact_definitions in
        let (source, outcome, first, run, k) = plan_validated-cases service _ _ q in
        let (_, same) =
          find-In (λ s. str_eq s.semantic_id planning_input.service_id) snapshot.services service
            e in
        let id : service.semantic_id ≡ planning_input.service_id = (eq_iff _ _).0 same in
        let requested =
          subst (λ i. find (λ s. str_eq s.semantic_id i) snapshot.services ≡ some service) (sym id)
            e in
        let prepared : (facts : PreparedFacts)
            → outcome ≡ CasePreparationOutcome.success facts
            → IsPrepared definitions service submitted d facts =
          λ facts success.
            prepare_case-IsPrepared definitions service submitted d source facts first (
              subst (λ o. prepare_case definitions service (as_objects source) d ≡ ok o) success
                run) in
        subst (λ i. IsSound snapshot i submitted d p) id
          (plan_prepared-IsSound snapshot submitted d service p outcome requested prepared k)
  ]

-- Where `plan_stateless` returns a plan, the requested Service is in the snapshot and active. The
-- Facts that everything is evaluated on are those that case preparation makes of the submitted ones:
-- their keys are the submitted keys, and each value that is not derived is the submitted one. The
-- plan's Procedure is the one candidate whose predicate is TRUE, all others being FALSE; its
-- Procedure Version is the one published version of that Procedure that covers the evaluation date,
-- and its rule is TRUE; each checklist item, Step and fee of the plan comes from an authored one of
-- that version, for the reasons of its own law (in effect, applicable, unlocked; items and Steps:
-- asserted as current and supported by the sources shown). What is unlocked by an eligibility basis
-- is so by one that the version's matching trusts: authored, in effect, reachable, qualified for,
-- asserted as current and supported.
pub plan_stateless-IsSound :
    (snapshot : KnowledgeSnapshot) (planning_input : PlanningInput) (p : PlanResult)
    → plan_stateless snapshot planning_input ≡ ok (PlanningResult.plan p)
    → IsSound snapshot planning_input.service_id planning_input.facts planning_input.evaluation_date
        p
unfolding plan_stateless
plan_stateless-IsSound snapshot planning_input p h =
    plan_found-IsSound snapshot planning_input p _ refl h
