-- ===== src/Evaluator/Kleene.antt =====
-- The value of an evaluation is the Strong Kleene meaning of the predicate.
use bardi.Prelude.{
  String, ◌≡◌, refl, Option, none, some, Result, ok, raise, index_error, assertion_error, ◌>>=◌,
  arith,
}
use bardi.KeySet
use bardi.KeySet.{KeySet}
use bardi.Dict
use bardi.Dict.{Dict}
use bardi.Facts.{FactValue}
use bardi.Rules.{RuleOperator, Operand, Predicate, Predicates}
use bardi.Evaluator.{
  TruthValue, is_true, is_false, is_unknown, EvaluationTrace, Traces, truth_of, negated, result_of,
  matches, composed_result, compose, evaluate_leaf, evaluate_trace, evaluate_children, evaluate,
}

-- The Kleene tables: the less and the greater of FALSE < UNKNOWN < TRUE.
abbrev pub both : TruthValue → TruthValue → TruthValue
both is_false b = is_false
both is_true b = b
both is_unknown is_false = is_false
both is_unknown b = is_unknown

abbrev pub either : TruthValue → TruthValue → TruthValue
either is_true b = is_true
either is_false b = b
either is_unknown is_true = is_true
either is_unknown b = is_unknown

module _ (facts : Dict FactValue) (submitted_keys : KeySet) where
  known_or_unknown : RuleOperator → Operand → Option FactValue → Result TruthValue
  known_or_unknown op expected none = ok is_unknown
  known_or_unknown op expected (some actual) = matches op actual expected >>= λ b. ok (truth_of b)

  -- A leaf: `exists` asks whether the Fact was submitted, any other waits for the Fact's value.
  unfoldable pub leaf_meaning : RuleOperator → String → Operand → Result TruthValue
  unfolding known_or_unknown
  leaf_meaning RuleOperator.exists fact expected = ok (truth_of (KeySet.member fact submitted_keys))
  leaf_meaning op fact expected = known_or_unknown op expected (Dict.get facts fact)

  unfoldable mutual
    pub meaning : Predicate → Result TruthValue
    meaning (Predicate.predicate RuleOperator.all fact expected children) = meaning_all children
    meaning (Predicate.predicate RuleOperator.any fact expected children) = meaning_any children
    meaning (Predicate.predicate RuleOperator.not fact expected Predicates.nil) = raise index_error
    meaning (Predicate.predicate RuleOperator.not fact expected (Predicates.cons p ps)) =
        meaning p >>= λ v. ok (negated v)
    meaning (Predicate.predicate op none expected children) = raise assertion_error
    meaning (Predicate.predicate op (some fact) expected children) = leaf_meaning op fact expected

    pub meaning_all : Predicates → Result TruthValue
    meaning_all Predicates.nil = ok is_true
    meaning_all (Predicates.cons p ps) = meaning p >>= λ v. meaning_all ps >>= λ w. ok (both v w)

    pub meaning_any : Predicates → Result TruthValue
    meaning_any Predicates.nil = ok is_false
    meaning_any (Predicates.cons p ps) = meaning p >>= λ v. meaning_any ps >>= λ w. ok (either v w)

pub composed_result_all :
    (t : EvaluationTrace) (ts : Traces)
    → composed_result is_false is_true (Traces.cons t ts)
      ≡ both (result_of t) (composed_result is_false is_true ts)
unfolding composed_result
composed_result_all t ts = ground arith

pub composed_result_any :
    (t : EvaluationTrace) (ts : Traces)
    → composed_result is_true is_false (Traces.cons t ts)
      ≡ either (result_of t) (composed_result is_true is_false ts)
unfolding composed_result
composed_result_any t ts = ground arith

module _ (facts : Dict FactValue) (submitted_keys : KeySet) where
  abbrev result_in : Result EvaluationTrace → Result TruthValue
  result_in r = r >>= λ t. ok (result_of t)

  leaf_meaning_lem :
      (op : RuleOperator) (fact : String) (expected : Operand)
      → result_in (evaluate_leaf facts submitted_keys op fact expected)
        ≡ leaf_meaning facts submitted_keys op fact expected
  unfolding evaluate_leaf leaf_meaning
  leaf_meaning_lem RuleOperator.exists fact expected = refl
  leaf_meaning_lem op fact expected = ground arith

  mutual
    unfolding evaluate_trace meaning compose composed_result

    trace-meaning :
        (p : Predicate)
        → result_in (evaluate_trace facts submitted_keys p) ≡ meaning facts submitted_keys p
    trace-meaning (Predicate.predicate RuleOperator.all fact expected children) =
        ground (arith, children-meaning_all children)
    trace-meaning (Predicate.predicate RuleOperator.any fact expected children) =
        ground (arith, children-meaning_any children)
    trace-meaning (Predicate.predicate RuleOperator.not fact expected Predicates.nil) = refl
    trace-meaning (Predicate.predicate RuleOperator.not fact expected (Predicates.cons p ps)) =
        ground (arith, trace-meaning p)
    trace-meaning (Predicate.predicate op none expected children) = refl
    trace-meaning (Predicate.predicate op (some fact) expected children) =
        leaf_meaning_lem op fact expected

    children-meaning_all :
        (ps : Predicates)
        → (evaluate_children facts submitted_keys ps >>= λ ts.
            ok (composed_result is_false is_true ts))
          ≡ meaning_all facts submitted_keys ps
    children-meaning_all Predicates.nil = refl
    children-meaning_all (Predicates.cons p ps) =
        ground (arith, trace-meaning p, children-meaning_all ps)

    children-meaning_any :
        (ps : Predicates)
        → (evaluate_children facts submitted_keys ps >>= λ ts.
            ok (composed_result is_true is_false ts))
          ≡ meaning_any facts submitted_keys ps
    children-meaning_any Predicates.nil = refl
    children-meaning_any (Predicates.cons p ps) =
        ground (arith, trace-meaning p, children-meaning_any ps)

-- For every predicate, facts and submitted keys, evaluation returns exactly where the Kleene meaning
-- of the predicate is defined, with that meaning as its value, and raises the same exception where
-- it is not.
pub evaluate-meaning :
    (p : Predicate) (facts : Dict FactValue) (submitted_keys : KeySet)
    → (evaluate p facts submitted_keys >>= λ e. ok e.value) ≡ meaning facts submitted_keys p
unfolding evaluate
evaluate-meaning p facts submitted_keys = ground (arith, trace-meaning facts submitted_keys p)
