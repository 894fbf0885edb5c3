-- ===== src/Evaluator/Inversion.antt =====
-- What an evaluation that returns has evaluated, one lemma for each form of predicate.
use bardi.Prelude.{String, ◌≡◌, ap, sym, Option, ok, >>=-eq-ok, ok-injective}
use bardi.KeySet.{KeySet}
use bardi.Dict.{Dict}
use bardi.Facts.{FactValue}
use bardi.Rules.{RuleOperator, Operand, Predicate, Predicates}
use bardi.Evaluator.{
  EvaluationTrace, Traces, result_of, missing_of, compose, negate, evaluate_trace,
  evaluate_children, evaluate, Evaluation,
}

module _ (facts : Dict FactValue) (submitted_keys : KeySet) where
  module _ (fact : Option String) (expected : Operand) where
    pub all_inv :
        (children : Predicates) (t : EvaluationTrace)
        → evaluate_trace facts submitted_keys
            (Predicate.predicate RuleOperator.all fact expected children)
          ≡ ok t
        → (ts : Traces) × (evaluate_children facts submitted_keys children ≡ ok ts)
          × (compose RuleOperator.all ts ≡ t)
    unfolding evaluate_trace
    all_inv children t h =
        let (ts, e, q) = >>=-eq-ok (evaluate_children facts submitted_keys children) _ h in
        (ts, e, ok-injective q)

    pub any_inv :
        (children : Predicates) (t : EvaluationTrace)
        → evaluate_trace facts submitted_keys
            (Predicate.predicate RuleOperator.any fact expected children)
          ≡ ok t
        → (ts : Traces) × (evaluate_children facts submitted_keys children ≡ ok ts)
          × (compose RuleOperator.any ts ≡ t)
    unfolding evaluate_trace
    any_inv children t h =
        let (ts, e, q) = >>=-eq-ok (evaluate_children facts submitted_keys children) _ h in
        (ts, e, ok-injective q)

    pub not_inv :
        (p : Predicate) (ps : Predicates) (t : EvaluationTrace)
        → evaluate_trace facts submitted_keys
            (Predicate.predicate RuleOperator.not fact expected (Predicates.cons p ps))
          ≡ ok t
        → (c : EvaluationTrace) × (evaluate_trace facts submitted_keys p ≡ ok c) × (negate c ≡ t)
    unfolding evaluate_trace
    not_inv p ps t h =
        let (c, e, q) = >>=-eq-ok (evaluate_trace facts submitted_keys p) _ h in
        (c, e, ok-injective q)

  pub cons_inv :
      (p : Predicate) (ps : Predicates) (ts : Traces)
      → evaluate_children facts submitted_keys (Predicates.cons p ps) ≡ ok ts
      → (t : EvaluationTrace) × (us : Traces) × (evaluate_trace facts submitted_keys p ≡ ok t)
        × (evaluate_children facts submitted_keys ps ≡ ok us)
        × (Traces.cons t us ≡ ts)
  unfolding evaluate_children
  cons_inv p ps ts h =
      let (t, e, q) = >>=-eq-ok (evaluate_trace facts submitted_keys p) _ h in
      let (us, d, r) = >>=-eq-ok (evaluate_children facts submitted_keys ps) _ q in
      (t, us, e, d, ok-injective r)

pub evaluate_inv :
    (p : Predicate) (facts : Dict FactValue) (submitted_keys : KeySet) (e : Evaluation)
    → evaluate p facts submitted_keys ≡ ok e
    → (t : EvaluationTrace) × (evaluate_trace facts submitted_keys p ≡ ok t)
      × (e.value ≡ result_of t)
      × (e.missing_facts ≡ missing_of t)
unfolding evaluate
evaluate_inv p facts submitted_keys e h =
    let (t, d, q) = >>=-eq-ok (evaluate_trace facts submitted_keys p) _ h in
    (
      t,
      d,
      ap (λ (x : Evaluation). x.value) (sym (ok-injective q)),
      ap (λ (x : Evaluation). x.missing_facts) (sym (ok-injective q)),
    )
