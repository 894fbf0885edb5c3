-- ===== src/Selection.antt =====
-- backend/planning/selection.py: the Procedure that a case selects.
pub mod Laws
use bardi.Prelude.{
  String, Bool, true, false, not, ◌&&◌, Option, none, some, List, [], ◌∷◌, any, filter, map, find,
  is_empty, str_eq, str_lt, sort, if◌then◌else◌, Result, ok, raise, assertion_error, ◌>>=◌,
  traverse,
}
use bardi.KeySet
use bardi.KeySet.{KeySet}
use bardi.Facts.{PreparedFacts}
use bardi.Evaluator.{TruthValue, is_true, is_unknown, truth_eq, Evaluation, evaluate}
use bardi.Catalog.{KnowledgeSnapshot, QuestionSnapshot, ServiceSnapshot, ProcedureCandidateSnapshot}
use bardi.Questions.{ConsequentialQuestion, pick_procedure_selection_question}

pub record CandidateEvaluation : Type 0 where
  pub candidate_semantic_id : String
  pub evaluation : Evaluation

pub data SelectionOutcome : Type 0 where
  procedure_selected :
      (procedure_semantic_id : String) → List CandidateEvaluation → SelectionOutcome
  selection_question : QuestionSnapshot → List CandidateEvaluation → SelectionOutcome
  selection_unsupported : (reason_code : String) → List CandidateEvaluation → SelectionOutcome
  selection_inconclusive :
      (reason_code : String) (candidate_semantic_ids : List String)
      → List CandidateEvaluation
      → SelectionOutcome
  selection_configuration_defect :
      (diagnostic_codes : List String) → List CandidateEvaluation → SelectionOutcome

evaluate_candidate : PreparedFacts → ProcedureCandidateSnapshot → Result CandidateEvaluation
evaluate_candidate facts candidate =
    evaluate candidate.selection_predicate facts.values facts.submitted_keys >>= λ e.
    ok (record { candidate_semantic_id = candidate.procedure_semantic_id; evaluation = e })

unfoldable pub evaluate_candidates :
    PreparedFacts → ServiceSnapshot → Result (List CandidateEvaluation)
unfolding evaluate_candidate
evaluate_candidates facts service =
    traverse (evaluate_candidate facts)
      (sort (λ a b. str_lt a.procedure_semantic_id b.procedure_semantic_id) service.candidates)

abbrev pub is_matching : CandidateEvaluation → Bool
is_matching e = truth_eq e.evaluation.value is_true

abbrev pub is_undecided : CandidateEvaluation → Bool
is_undecided e = truth_eq e.evaluation.value is_unknown

consequential_facts : List CandidateEvaluation → KeySet
consequential_facts [] = []
consequential_facts (e ∷ es) =
    if is_undecided e
    then KeySet.union e.evaluation.missing_facts (consequential_facts es)
    else consequential_facts es

ask_or_refuse : List CandidateEvaluation → ConsequentialQuestion → Result SelectionOutcome
ask_or_refuse evaluations question =
    if not (is_empty question.diagnostic_codes)
    then ok (selection_configuration_defect question.diagnostic_codes evaluations)
    else elim question.question [
      | none ↦ raise assertion_error
      | some q ↦ ok (selection_question q evaluations)
    ]

module _ (snapshot : KnowledgeSnapshot) (prepared_facts : PreparedFacts) where
  ask : ServiceSnapshot → List CandidateEvaluation → Result SelectionOutcome
  unfolding ask_or_refuse consequential_facts
  ask service evaluations =
      pick_procedure_selection_question snapshot service prepared_facts
        (consequential_facts evaluations)
      >>= ask_or_refuse evaluations

  -- The tests on `len(matching_ids)` are the clauses on the list of the matching Procedures.
  conclude :
      ServiceSnapshot
      → List CandidateEvaluation
      → (has_unknown : Bool) (matching_ids : List String) → Result SelectionOutcome
  unfolding ask
  conclude service evaluations has_unknown [] =
      if not has_unknown
      then ok (selection_unsupported "no_matching_researched_procedure" evaluations)
      else ask service evaluations
  conclude service evaluations has_unknown (id ∷ []) =
      if not has_unknown then ok (procedure_selected id evaluations) else ask service evaluations
  conclude service evaluations has_unknown (id ∷ other ∷ more) =
      ok (selection_inconclusive "multiple_matching_procedures" (id ∷ other ∷ more) evaluations)

  select_from : ServiceSnapshot → Result SelectionOutcome
  unfolding conclude
  select_from service =
      if not service.is_active
      then ok (selection_unsupported "inactive_service" [])
      else evaluate_candidates prepared_facts service >>= λ evaluations.
          conclude service evaluations (any is_undecided evaluations)
            (map (λ e. e.candidate_semantic_id) (filter is_matching evaluations))

  select_found : Option ServiceSnapshot → Result SelectionOutcome
  unfolding select_from
  select_found none = ok (selection_unsupported "unknown_service" [])
  select_found (some service) = select_from service

  unfoldable pub select_procedure : String → Result SelectionOutcome
  unfolding select_found
  select_procedure service_semantic_id =
      select_found (find (λ s. str_eq s.semantic_id service_semantic_id) snapshot.services)
