-- ===== src/Evaluator/Stable.antt =====
-- Which further Facts can change the value of an evaluation.
use bardi.Prelude.{
  String, ◌≡◌, subst, sym, ap, ◌∙◌, none, some, ok, ok-injective, arith, inl, inr, Bool-cases,
  Option-cases, eq_refl,
}
use mathlib.Core.Path.{subst₂}
use bardi.KeySet
use bardi.KeySet.{KeySet}
use bardi.Dict
use bardi.Dict.{Dict}
use bardi.Facts.{FactValue}
use bardi.Rules.{RuleOperator, Operand, Predicate, Predicates}
use bardi.Evaluator.{
  is_unknown, truth_eq, EvaluationTrace, Traces, result_of, missing_of, negated, negate,
  unknown_missing, evaluate_leaf, evaluate_trace, evaluate_children,
}
use bardi.Evaluator.Missing.{Marked, trace-Marked}
use bardi.Evaluator.Inversion.{all_inv, any_inv, not_inv, cons_inv}
use bardi.Evaluator.Decided.{
  LacksAll, Kept, AllKept, SameResults, member_of_is_empty, member-unknown_head,
  member-unknown_tail, all-stable, any-stable, compose-missing_all, compose-missing_any,
  negate-missing,
}

-- Every value of `facts` is still there in `more`.
abbrev pub Extends : Dict FactValue → Dict FactValue → Type 0
Extends facts more =
    (k : String) (v : FactValue) → Dict.get facts k ≡ some v → Dict.get more k ≡ some v

module _ (facts more : Dict FactValue) (submitted_keys : KeySet)
    (extends : Extends facts more) where
  leaf-stable :
      (op : RuleOperator) (fact : String) (expected : Operand) (t t' : EvaluationTrace)
      → evaluate_leaf facts submitted_keys op fact expected ≡ ok t
      → evaluate_leaf more submitted_keys op fact expected ≡ ok t'
      → LacksAll more (missing_of t)
      → result_of t ≡ result_of t'
  unfolding evaluate_leaf KeySet.member
  leaf-stable RuleOperator.exists fact expected t t' h h' lacks = ground arith
  leaf-stable op fact expected t t' h h' lacks = elim (Option-cases (Dict.get facts fact)) [
    | inl absent ↦ ground (arith, lacks fact, eq_refl fact)
    | inr (v, present) ↦ ground (arith, extends fact v present)
  ]

  Kept-of_stable :
      (t t' : EvaluationTrace)
      → Marked t
      → (LacksAll more (missing_of t) → result_of t ≡ result_of t')
      → Kept t t'
  Kept-of_stable t t' marked stable d =
      stable (λ k m. absurd (member_of_is_empty (missing_of t) k (rw d at marked) m))

  same_of_stable :
      (t t' : EvaluationTrace) (ts : Traces)
      → Marked t
      → (LacksAll more (missing_of t) → result_of t ≡ result_of t')
      → LacksAll more (unknown_missing (Traces.cons t ts))
      → result_of t ≡ result_of t'
  same_of_stable t t' ts marked stable lacks =
      elim (Bool-cases (truth_eq (result_of t) is_unknown)) [
        | inl u ↦ stable (λ k m. lacks k (member-unknown_head t ts k u m))
        | inr d ↦ Kept-of_stable t t' marked stable d
      ]

  same_under_not :
      (c c' : EvaluationTrace)
      → Marked c
      → (LacksAll more (missing_of c) → result_of c ≡ result_of c')
      → LacksAll more (missing_of (negate c))
      → result_of c ≡ result_of c'
  same_under_not c c' marked stable lacks = elim (Bool-cases (truth_eq (result_of c) is_unknown)) [
    | inl u ↦ stable (subst (LacksAll more) (negate-missing c u) lacks)
    | inr d ↦ Kept-of_stable c c' marked stable d
  ]

  mutual
    unfolding evaluate_trace

    trace-stable :
        (p : Predicate) (t t' : EvaluationTrace)
        → evaluate_trace facts submitted_keys p ≡ ok t
        → evaluate_trace more submitted_keys p ≡ ok t'
        → LacksAll more (missing_of t)
        → result_of t ≡ result_of t'
    trace-stable (Predicate.predicate RuleOperator.all fact expected children) t t' h h' lacks =
        let (ts, e, q) = all_inv facts submitted_keys fact expected children t h in
        let (ts', e', q') = all_inv more submitted_keys fact expected children t' h' in
        subst₂ (λ x y. result_of x ≡ result_of y) q q'
          (all-stable ts ts' (children-kept children ts ts' e e') λ u.
            children-same children ts ts' e e'
              (subst (LacksAll more) (ap missing_of (sym q) ∙ compose-missing_all ts u) lacks))
    trace-stable (Predicate.predicate RuleOperator.any fact expected children) t t' h h' lacks =
        let (ts, e, q) = any_inv facts submitted_keys fact expected children t h in
        let (ts', e', q') = any_inv more submitted_keys fact expected children t' h' in
        subst₂ (λ x y. result_of x ≡ result_of y) q q'
          (any-stable ts ts' (children-kept children ts ts' e e') λ u.
            children-same children ts ts' e e'
              (subst (LacksAll more) (ap missing_of (sym q) ∙ compose-missing_any ts u) lacks))
    trace-stable (Predicate.predicate RuleOperator.not fact expected Predicates.nil) t t' h h'
          lacks =
        cc
    trace-stable (Predicate.predicate RuleOperator.not fact expected (Predicates.cons p ps)) t t' h
          h' lacks =
        let (c, e, q) = not_inv facts submitted_keys fact expected p ps t h in
        let (c', e', q') = not_inv more submitted_keys fact expected p ps t' h' in
        subst₂ (λ x y. result_of x ≡ result_of y) q q'
          (ap negated (
            same_under_not c c' (trace-Marked facts submitted_keys p c e) (trace-stable p c c' e e')
              (subst (λ x. LacksAll more (missing_of x)) (sym q) lacks)))
    trace-stable (Predicate.predicate op none expected children) t t' h h' lacks = cc
    trace-stable (Predicate.predicate op (some fact) expected children) t t' h h' lacks =
        leaf-stable op fact expected t t' h h' lacks

    children-kept :
        (ps : Predicates) (ts ts' : Traces)
        → evaluate_children facts submitted_keys ps ≡ ok ts
        → evaluate_children more submitted_keys ps ≡ ok ts'
        → AllKept ts ts'
    children-kept Predicates.nil ts ts' h h' = subst₂ AllKept (ok-injective h) (ok-injective h') tt
    children-kept (Predicates.cons p ps) ts ts' h h' =
        let (t, us, e, d, q) = cons_inv facts submitted_keys p ps ts h in
        let (t', us', e', d', q') = cons_inv more submitted_keys p ps ts' h' in
        subst₂ AllKept q q' (
          Kept-of_stable t t' (trace-Marked facts submitted_keys p t e) (trace-stable p t t' e e'),
          children-kept ps us us' d d',
        )

    children-same :
        (ps : Predicates) (ts ts' : Traces)
        → evaluate_children facts submitted_keys ps ≡ ok ts
        → evaluate_children more submitted_keys ps ≡ ok ts'
        → LacksAll more (unknown_missing ts)
        → SameResults ts ts'
    children-same Predicates.nil ts ts' h h' lacks =
        subst₂ SameResults (ok-injective h) (ok-injective h') tt
    children-same (Predicates.cons p ps) ts ts' h h' lacks =
        let (t, us, e, d, q) = cons_inv facts submitted_keys p ps ts h in
        let (t', us', e', d', q') = cons_inv more submitted_keys p ps ts' h' in
        let here = subst (λ x. LacksAll more (unknown_missing x)) (sym q) lacks in
        subst₂ SameResults q q' (
          same_of_stable t t' us (trace-Marked facts submitted_keys p t e)
              (trace-stable p t t' e e') here,
          children-same ps us us' d d' (λ k m. here k (member-unknown_tail t us k m)),
        )
