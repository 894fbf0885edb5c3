-- ===== src/Evaluator/Missing.antt =====
-- What the missing Facts of an evaluation are.
use bardi.Prelude.{
  String, ◌≡◌, refl, subst, sym, ap, ◌∙◌, Bool, true, false, not, ◌||◌, none, some, ok,
  ok-injective, arith, is_empty, str_eq, some_and, eq_iff,
}
use bardi.KeySet
use bardi.KeySet.{KeySet, is_empty-union, member-union}
use bardi.Dict
use bardi.Dict.{Dict}
use bardi.Facts.{FactValue}
use bardi.Rules.{RuleOperator, Operand, Predicate, Predicates}
use bardi.Evaluator.{
  is_true, is_false, is_unknown, truth_eq, EvaluationTrace, Traces, result_of, missing_of,
  some_result, every_result, composed_result, compose, unknown_missing, evaluate_leaf,
  evaluate_trace, evaluate_children, evaluate, Evaluation, negate,
}
use bardi.Evaluator.Inversion.{all_inv, any_inv, not_inv, cons_inv, evaluate_inv}

-- The Facts that a predicate names.
unfoldable mutual
  pub mentions : String → Predicate → Bool
  mentions k (Predicate.predicate op fact expected children) =
      some_and (λ f. str_eq f k) fact || mentions_some k children

  pub mentions_some : String → Predicates → Bool
  mentions_some k Predicates.nil = false
  mentions_some k (Predicates.cons p ps) = mentions k p || mentions_some k ps

-- The missing Facts are none exactly when the value is decided.
abbrev pub Marked : EvaluationTrace → Type 0
Marked t = is_empty (missing_of t) ≡ not (truth_eq (result_of t) is_unknown)

abbrev AllMarked : Traces → Type 0
AllMarked Traces.nil = Unit
AllMarked (Traces.cons t ts) = Marked t × AllMarked ts

is_empty-unknown_missing :
    (ts : Traces) → AllMarked ts → is_empty (unknown_missing ts) ≡ not (some_result is_unknown ts)
unfolding unknown_missing some_result
is_empty-unknown_missing Traces.nil h = refl
is_empty-unknown_missing (Traces.cons t ts) h =
    ground
      (arith, is_empty-unknown_missing ts h.1, is_empty-union (missing_of t) (unknown_missing ts))

-- A composition is undecided only if some child is.
composed_result-is_unknown_all :
    (ts : Traces)
    → truth_eq (composed_result is_false is_true ts) is_unknown ≡ true
    → some_result is_unknown ts ≡ true
unfolding composed_result some_result every_result
composed_result-is_unknown_all Traces.nil h = cc
composed_result-is_unknown_all (Traces.cons t ts) h =
    ground (arith, composed_result-is_unknown_all ts)

composed_result-is_unknown_any :
    (ts : Traces)
    → truth_eq (composed_result is_true is_false ts) is_unknown ≡ true
    → some_result is_unknown ts ≡ true
unfolding composed_result some_result every_result
composed_result-is_unknown_any Traces.nil h = cc
composed_result-is_unknown_any (Traces.cons t ts) h =
    ground (arith, composed_result-is_unknown_any ts)

compose-Marked-all : (ts : Traces) → AllMarked ts → Marked (compose RuleOperator.all ts)
unfolding compose
compose-Marked-all ts h =
    ground (arith, is_empty-unknown_missing ts h, composed_result-is_unknown_all ts)

compose-Marked-any : (ts : Traces) → AllMarked ts → Marked (compose RuleOperator.any ts)
unfolding compose
compose-Marked-any ts h =
    ground (arith, is_empty-unknown_missing ts h, composed_result-is_unknown_any ts)

negate-Marked : (c : EvaluationTrace) → Marked c → Marked (negate c)
negate-Marked c h = ground arith

Marked-pair :
    (t : EvaluationTrace) (ts : Traces) → Marked t → AllMarked ts → AllMarked (Traces.cons t ts)
Marked-pair t ts h k = (h, k)

module _ (facts : Dict FactValue) (submitted_keys : KeySet) where
  leaf-Marked :
      (op : RuleOperator) (fact : String) (expected : Operand) (t : EvaluationTrace)
      → evaluate_leaf facts submitted_keys op fact expected ≡ ok t
      → Marked t
  unfolding evaluate_leaf
  leaf-Marked RuleOperator.exists fact expected t h = ground arith
  leaf-Marked op fact expected t h = ground arith

  mutual
    unfolding evaluate_trace

    pub trace-Marked :
        (p : Predicate) (t : EvaluationTrace)
        → evaluate_trace facts submitted_keys p ≡ ok t
        → Marked t
    trace-Marked (Predicate.predicate RuleOperator.all fact expected children) t h =
        let (ts, e, q) = all_inv facts submitted_keys fact expected children t h in
        subst Marked q (compose-Marked-all ts (children-Marked children ts e))
    trace-Marked (Predicate.predicate RuleOperator.any fact expected children) t h =
        let (ts, e, q) = any_inv facts submitted_keys fact expected children t h in
        subst Marked q (compose-Marked-any ts (children-Marked children ts e))
    trace-Marked (Predicate.predicate RuleOperator.not fact expected Predicates.nil) t h = cc
    trace-Marked (Predicate.predicate RuleOperator.not fact expected (Predicates.cons p ps)) t h =
        let (c, e, q) = not_inv facts submitted_keys fact expected p ps t h in
        subst Marked q (negate-Marked c (trace-Marked p c e))
    trace-Marked (Predicate.predicate op none expected children) t h = cc
    trace-Marked (Predicate.predicate op (some fact) expected children) t h =
        leaf-Marked op fact expected t h

    children-Marked :
        (ps : Predicates) (ts : Traces)
        → evaluate_children facts submitted_keys ps ≡ ok ts
        → AllMarked ts
    children-Marked Predicates.nil ts h = subst AllMarked (ok-injective h) tt
    children-Marked (Predicates.cons p ps) ts h =
        let (t, us, e, d, q) = cons_inv facts submitted_keys p ps ts h in
        subst AllMarked q (Marked-pair t us (trace-Marked p t e) (children-Marked ps us d))

compose-missing :
    (op : RuleOperator) (ts : Traces) (k : String)
    → KeySet.member k (missing_of (compose op ts)) ≡ true
    → KeySet.member k (unknown_missing ts) ≡ true
unfolding compose KeySet.member
compose-missing RuleOperator.all ts k m = ground arith
compose-missing op ts k m = ground arith

negate-missing :
    (c : EvaluationTrace) (k : String)
    → KeySet.member k (missing_of (negate c)) ≡ true
    → KeySet.member k (missing_of c) ≡ true
unfolding KeySet.member
negate-missing c k m = ground arith

none_missing : (k : String) → KeySet.member k (unknown_missing Traces.nil) ≡ true → ⊥
unfolding KeySet.member unknown_missing
none_missing k m = cc

or_left : (a b : Bool) → a ≡ true → (a || b) ≡ true
or_left a b h = ground arith

or_right : (a b : Bool) → b ≡ true → (a || b) ≡ true
or_right a b h = ground arith

lacking_either :
    {a b c d : Bool} {A : Type 0}
    → (a || b) ≡ true
    → (a ≡ true → A × (c ≡ true))
    → (b ≡ true → A × (d ≡ true))
    → A × ((c || d) ≡ true)
lacking_either {a = true} h f g = let (x, y) = f refl in (x, or_left _ _ y)
lacking_either {a = false} h f g = let (x, y) = g h in (x, or_right _ _ y)

module _ (facts : Dict FactValue) (submitted_keys : KeySet) where
  leaf-Lacking :
      (op : RuleOperator) (fact : String) (expected : Operand) (t : EvaluationTrace) (k : String)
      → evaluate_leaf facts submitted_keys op fact expected ≡ ok t
      → KeySet.member k (missing_of t) ≡ true
      → (Dict.get facts k ≡ none) × (str_eq fact k ≡ true)
  unfolding evaluate_leaf KeySet.member
  leaf-Lacking RuleOperator.exists fact expected t k h m = ground arith
  leaf-Lacking op fact expected t k h m = ground (arith, eq_iff fact k)

  unknown_missing-child :
      (t : EvaluationTrace) (ts : Traces) (k : String)
      → KeySet.member k (unknown_missing (Traces.cons t ts)) ≡ true
      → (KeySet.member k (missing_of t) || KeySet.member k (unknown_missing ts)) ≡ true
  unfolding unknown_missing
  unknown_missing-child t ts k h =
      ground (arith, member-union k (missing_of t) (unknown_missing ts))

  mutual
    unfolding evaluate_trace mentions

    trace-Lacking :
        (p : Predicate) (t : EvaluationTrace) (k : String)
        → evaluate_trace facts submitted_keys p ≡ ok t
        → KeySet.member k (missing_of t) ≡ true
        → (Dict.get facts k ≡ none) × (mentions k p ≡ true)
    trace-Lacking (Predicate.predicate RuleOperator.all fact expected children) t k h m =
        let (ts, e, q) = all_inv facts submitted_keys fact expected children t h in
        let n = compose-missing RuleOperator.all ts k (rw (← q) at m) in
        let (absent, named) = children-Lacking children ts k e n in (absent, or_right _ _ named)
    trace-Lacking (Predicate.predicate RuleOperator.any fact expected children) t k h m =
        let (ts, e, q) = any_inv facts submitted_keys fact expected children t h in
        let n = compose-missing RuleOperator.any ts k (rw (← q) at m) in
        let (absent, named) = children-Lacking children ts k e n in (absent, or_right _ _ named)
    trace-Lacking (Predicate.predicate RuleOperator.not fact expected Predicates.nil) t k h m = cc
    trace-Lacking (Predicate.predicate RuleOperator.not fact expected (Predicates.cons p ps)) t k h
          m =
        let (c, e, q) = not_inv facts submitted_keys fact expected p ps t h in
        let (absent, named) = trace-Lacking p c k e (negate-missing c k (rw (← q) at m)) in
        (absent, or_right _ _ (or_left _ _ named))
    trace-Lacking (Predicate.predicate op none expected children) t k h m = cc
    trace-Lacking (Predicate.predicate op (some fact) expected children) t k h m =
        let (absent, named) = leaf-Lacking op fact expected t k h m in (absent, or_left _ _ named)

    children-Lacking :
        (ps : Predicates) (ts : Traces) (k : String)
        → evaluate_children facts submitted_keys ps ≡ ok ts
        → KeySet.member k (unknown_missing ts) ≡ true
        → (Dict.get facts k ≡ none) × (mentions_some k ps ≡ true)
    children-Lacking Predicates.nil ts k h m = absurd (none_missing k (rw (← ok-injective h) at m))
    children-Lacking (Predicates.cons p ps) ts k h m =
        let (t, us, e, d, q) = cons_inv facts submitted_keys p ps ts h in
        lacking_either (unknown_missing-child t us k (rw (← q) at m)) (trace-Lacking p t k e)
          (children-Lacking ps us k d)

-- A returned evaluation reports missing Facts exactly when its value is UNKNOWN, and each of them is
-- a Fact that the predicate names and that has no value.
pub evaluate-missing :
    (p : Predicate) (facts : Dict FactValue) (submitted_keys : KeySet) (e : Evaluation)
    → evaluate p facts submitted_keys ≡ ok e
    → (is_empty e.missing_facts ≡ not (truth_eq e.value is_unknown))
      × ((k : String)
          → KeySet.member k e.missing_facts ≡ true
          → (Dict.get facts k ≡ none) × (mentions k p ≡ true))
evaluate-missing p facts submitted_keys e h =
    let (t, returned, v, m) = evaluate_inv p facts submitted_keys e h in
    (
      ap is_empty m
          ∙ trace-Marked facts submitted_keys p t returned
          ∙ ap (λ x. not (truth_eq x is_unknown)) (sym v),
      λ k n.
          trace-Lacking facts submitted_keys p t k returned
            (subst (λ s. KeySet.member k s ≡ true) m n),
    )
