-- ===== src/Examples/Rules.antt =====
-- The laws of the evaluator at small rules.
use bardi.Prelude.{
  ◌≡◌, refl, true, false, not, none, some, [], ◌∷◌, is_empty, String, ok, ◌>>=◌, arith,
}
use bardi.KeySet
use bardi.Dict
use bardi.Dict.{Dict}
use bardi.Facts.{FactValue}
use bardi.Rules.{RuleOperator, Operand, Predicate, Predicates}
use bardi.Evaluator.{
  TruthValue, truth_eq, EvaluationTrace, Traces, Evaluation, evaluate, evaluate_trace,
  evaluate_leaf,
}
use bardi.Evaluator.Kleene.{meaning, evaluate-meaning}
use bardi.Evaluator.Missing.{mentions, evaluate-missing}
use bardi.Evaluator.Stable.{Extends}
use bardi.Examples.Data.{citizen_is}

abbrev known : Dict FactValue
known = ("citizenship", FactValue.str "egyptian") ∷ []

abbrev more_known : Dict FactValue
more_known = ("citizenship", FactValue.str "egyptian") ∷ ("sex", FactValue.str "female") ∷ []

abbrev student : Predicate
student =
    Predicate.predicate RuleOperator.eq (some "is_student") (Operand.one (FactValue.bool true))
      Predicates.nil

abbrev either : Predicate
either =
    Predicate.predicate RuleOperator.any none Operand.absent
      (Predicates.cons student (Predicates.cons (citizen_is "egyptian") Predicates.nil))

evaluate-meaning_example : (evaluate either known [] >>= λ e. ok e.value) ≡ meaning known [] either
evaluate-meaning_example = evaluate-meaning either known []

abbrev undecided : Evaluation
undecided = record {
  value = TruthValue.is_unknown;
  missing_facts = "is_student" ∷ [];
  trace =
      EvaluationTrace.trace
        (record {
          op = RuleOperator.eq;
          result = TruthValue.is_unknown;
          fact_key = some "is_student";
          fact_present = some false;
          submitted = some false;
          actual_value = none;
          expected_value = Operand.one (FactValue.bool true);
          missing_facts = "is_student" ∷ [];
          affected_result = true;
        })
        Traces.nil;
}

undecided_run : evaluate student known [] ≡ ok undecided
unfolding evaluate evaluate_trace evaluate_leaf Dict.get KeySet.member
undecided_run = refl

evaluate-missing_example :
    (is_empty undecided.missing_facts ≡ not (truth_eq TruthValue.is_unknown TruthValue.is_unknown))
    × ((k : String)
        → KeySet.member k ("is_student" ∷ []) ≡ true
        → (Dict.get known k ≡ none) × (mentions k student ≡ true))
evaluate-missing_example = evaluate-missing student known [] undecided undecided_run

extended : Extends known more_known
unfolding Dict.get
extended k v h = ground arith
