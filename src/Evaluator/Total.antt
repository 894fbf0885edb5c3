-- ===== src/Evaluator/Total.antt =====
-- A valid rule over Facts of the right types never makes the evaluator raise.
use bardi.Prelude.{
  ◌≡◌, refl, subst, sym, ◌⊎◌, inl, inr, String, Bool, true, false, not, ◌&&◌, Option, none, some,
  Option-cases, some_inj, ◌∙◌, Result, ok, ◌>>=◌, arith,
}
use bardi.KeySet.{KeySet}
use bardi.Dict
use bardi.Dict.{Dict}
use bardi.Facts.{FactKind, FactValue, FactDefinition, Definitions, value_fits}
use bardi.Facts.Kinds.{value_fits-integer, value_fits-date}
use bardi.Rules.{RuleOperator, Operand, Predicate, Predicates}
use bardi.Rules.Typing.{
  is_ordered_kind, is_operand, is_leaf, is_well_typed, are_well_typed, IsTyped,
}
use bardi.Evaluator.{
  value_lt, less, greater, matches, compared, evaluate_leaf, evaluate_trace, evaluate_children,
  evaluate, Traces, compose, negate,
}

abbrev pub Returns {ℓ} : {A : Type ℓ} → Result A → Type ℓ
Returns {A} m = (a : A) × (m ≡ ok a)

pub Returns->>= {ℓ κ} :
    {A : Type ℓ} {B : Type κ} (m : Result A) (f : A → Result B)
    → Returns m
    → ((a : A) → m ≡ ok a → Returns (f a))
    → Returns (m >>= f)
Returns->>= m f (a, e) next = rw e (next a e)

ordered_cases :
    (d : FactDefinition)
    → is_ordered_kind d.kind ≡ true
    → (d.kind ≡ FactKind.integer) ⊎ (d.kind ≡ FactKind.date)
ordered_cases d h = by_kind d.kind h
  where
    by_kind :
        (k : FactKind) → is_ordered_kind k ≡ true → (k ≡ FactKind.integer) ⊎ (k ≡ FactKind.date)
    by_kind FactKind.integer h = inl refl
    by_kind FactKind.date h = inr refl
    by_kind FactKind.enum h = cc
    by_kind FactKind.boolean h = cc
    by_kind FactKind.string h = cc

module _ (d : FactDefinition) (a b : FactValue) (ordered : is_ordered_kind d.kind ≡ true)
    (fits_a : value_fits d a ≡ true) (fits_b : value_fits d b ≡ true) where
  value_lt-Returns : Returns (value_lt a b)
  unfolding value_lt
  value_lt-Returns = elim (ordered_cases d ordered) [
    | inl k ↦
        let (m, e) = value_fits-integer d a k fits_a in
        let (n, f) = value_fits-integer d b k fits_b in rw (e, f) (_, refl)
    | inr k ↦
        let (m, e) = value_fits-date d a k fits_a in
        let (n, f) = value_fits-date d b k fits_b in rw (e, f) (_, refl)
  ]

and_left : (a b : Bool) → (a && b) ≡ true → a ≡ true
and_left true b h = refl
and_left false b h = cc

and_right : (a b : Bool) → (a && b) ≡ true → b ≡ true
and_right true b h = h
and_right false b h = cc

less-Returns :
    (d : FactDefinition) (a b : FactValue)
    → (is_ordered_kind d.kind && value_fits d b) ≡ true
    → value_fits d a ≡ true
    → Returns (less a (Operand.one b))
unfolding less
less-Returns d a b h fits =
    value_lt-Returns d a b (and_left _ _ h) fits (and_right (is_ordered_kind d.kind) _ h)

greater-Returns :
    (d : FactDefinition) (a b : FactValue)
    → (is_ordered_kind d.kind && value_fits d b) ≡ true
    → value_fits d a ≡ true
    → Returns (greater a (Operand.one b))
unfolding greater
greater-Returns d a b h fits =
    value_lt-Returns d b a (and_left _ _ h) (and_right (is_ordered_kind d.kind) _ h) fits

abbrev negation : Bool → Result Bool
negation b = ok (not b)

matches-Returns :
    (op : RuleOperator) (d : FactDefinition) (actual : FactValue) (expected : Operand)
    → is_operand op d expected ≡ true
    → value_fits d actual ≡ true
    → (op ≡ RuleOperator.exists) ⊎ Returns (matches op actual expected)
unfolding matches is_operand
matches-Returns RuleOperator.exists d actual expected h fits = inl refl
matches-Returns RuleOperator.eq d actual (Operand.one v) h fits = inr (_, refl)
matches-Returns RuleOperator.in_ d actual (Operand.many vs) h fits = inr (_, refl)
matches-Returns RuleOperator.lt d actual (Operand.one v) h fits =
    inr (less-Returns d actual v h fits)
matches-Returns RuleOperator.gt d actual (Operand.one v) h fits =
    inr (greater-Returns d actual v h fits)
matches-Returns RuleOperator.lte d actual (Operand.one v) h fits = inr (
    Returns->>= (greater actual (Operand.one v)) negation (greater-Returns d actual v h fits)
      (λ b _. (not b, refl)))
matches-Returns RuleOperator.gte d actual (Operand.one v) h fits = inr (
    Returns->>= (less actual (Operand.one v)) negation (less-Returns d actual v h fits)
      (λ b _. (not b, refl)))
matches-Returns op d actual expected h fits = cc

module _ (definitions : Definitions) (facts : Dict FactValue) (submitted_keys : KeySet)
    (typed : IsTyped definitions facts) where
  compared-Returns :
      (op : RuleOperator) (fact : String) (d : FactDefinition) (expected : Operand)
      (found : Option FactValue)
      → Dict.get facts fact ≡ found
      → Dict.get definitions fact ≡ some d
      → is_operand op d expected ≡ true
      → (op ≡ RuleOperator.exists) ⊎ Returns (compared facts submitted_keys op fact expected found)
  unfolding compared
  compared-Returns op fact d expected none e defined h = inr (_, refl)
  compared-Returns op fact d expected (some actual) e defined h =
      let (d', defined', fits) = typed fact actual e in
      let same : d' ≡ d = some_inj (sym defined' ∙ defined) in
      elim (matches-Returns op d actual expected h
        (subst (λ x. value_fits x actual ≡ true) same fits)) [
          | inl exists ↦ inl exists
          | inr run ↦ inr (Returns->>= (matches op actual expected) _ run (λ matched _. (_, refl)))
        ]

  is_leaf_inv :
      (op : RuleOperator) (fact : String) (expected : Operand)
      → is_leaf definitions op (some fact) expected ≡ true
      → (d : FactDefinition) × (Dict.get definitions fact ≡ some d)
        × (is_operand op d expected ≡ true)
  unfolding is_leaf
  is_leaf_inv op fact expected h = elim (Option-cases (Dict.get definitions fact)) [
    | inl e ↦ ground arith
    | inr (d, e) ↦ (d, e, ground arith)
  ]

  found-Returns :
      (op : RuleOperator) (fact : String) (expected : Operand)
      → is_leaf definitions op (some fact) expected ≡ true
      → (op ≡ RuleOperator.exists)
        ⊎ Returns (compared facts submitted_keys op fact expected (Dict.get facts fact))
  found-Returns op fact expected h =
      let (d, defined, typed_operand) = is_leaf_inv op fact expected h in
      compared-Returns op fact d expected (Dict.get facts fact) refl defined typed_operand

  leaf-Returns :
      (op : RuleOperator) (fact : Option String) (expected : Operand)
      → is_leaf definitions op fact expected ≡ true
      → Returns (
          evaluate_trace facts submitted_keys (Predicate.predicate op fact expected Predicates.nil))
  unfolding is_leaf evaluate_trace evaluate_leaf is_operand
  leaf-Returns RuleOperator.exists (some fact) expected h = (_, refl)
  leaf-Returns RuleOperator.all (some fact) expected h =
      let (d, _, no_operand) = is_leaf_inv RuleOperator.all fact expected h in cc no_operand
  leaf-Returns RuleOperator.any (some fact) expected h =
      let (d, _, no_operand) = is_leaf_inv RuleOperator.any fact expected h in cc no_operand
  leaf-Returns RuleOperator.not (some fact) expected h =
      let (d, _, no_operand) = is_leaf_inv RuleOperator.not fact expected h in cc no_operand
  leaf-Returns op none expected h = cc
  leaf-Returns op (some fact) expected h = elim (found-Returns op fact expected h) [
    | inl exists ↦ cc exists
    | inr run ↦ run
  ]

  mutual
    unfolding evaluate_trace evaluate_children is_well_typed

    trace-Returns :
        (p : Predicate)
        → is_well_typed definitions p ≡ true
        → Returns (evaluate_trace facts submitted_keys p)
    trace-Returns (Predicate.predicate op fact expected Predicates.nil) h =
        leaf-Returns op fact expected h
    trace-Returns (Predicate.predicate RuleOperator.all none Operand.absent (Predicates.cons p ps))
          h =
        let (t, e) = trace-Returns p (and_left _ _ h) in
        let (ts, f) = children-Returns ps (and_right (is_well_typed definitions p) _ h) in
        (compose RuleOperator.all (Traces.cons t ts), rw (e, f) refl)
    trace-Returns (Predicate.predicate RuleOperator.any none Operand.absent (Predicates.cons p ps))
          h =
        let (t, e) = trace-Returns p (and_left _ _ h) in
        let (ts, f) = children-Returns ps (and_right (is_well_typed definitions p) _ h) in
        (compose RuleOperator.any (Traces.cons t ts), rw (e, f) refl)
    trace-Returns
          (Predicate.predicate RuleOperator.not none Operand.absent
            (Predicates.cons p Predicates.nil))
          h =
        let (t, e) = trace-Returns p h in (negate t, rw e refl)
    trace-Returns (Predicate.predicate op fact expected (Predicates.cons p ps)) h = cc

    children-Returns :
        (ps : Predicates)
        → are_well_typed definitions ps ≡ true
        → Returns (evaluate_children facts submitted_keys ps)
    children-Returns Predicates.nil h = (_, refl)
    children-Returns (Predicates.cons p ps) h =
        let (t, e) = trace-Returns p (and_left _ _ h) in
        let (ts, f) = children-Returns ps (and_right (is_well_typed definitions p) _ h) in
        (Traces.cons t ts, rw (e, f) refl)

-- A well-typed rule evaluates to a result over Facts whose values their definitions allow: the
-- evaluator raises no exception, whatever keys count as submitted.
pub evaluate-Returns :
    (definitions : Definitions) (p : Predicate) (facts : Dict FactValue) (submitted_keys : KeySet)
    → is_well_typed definitions p ≡ true
    → IsTyped definitions facts
    → Returns (evaluate p facts submitted_keys)
unfolding evaluate
evaluate-Returns definitions p facts submitted_keys h typed =
    Returns->>= (evaluate_trace facts submitted_keys p) _
      (trace-Returns definitions facts submitted_keys typed p h) (λ t _. (_, refl))
