-- ===== src/Rules/Validation/Typed.antt =====
-- backend/planning/rules.py: what validate_rule_v1 accepts satisfies the definitions.
use bardi.Prelude.{
  ℕ, zero, suc, ◌-◌, ◌≡◌, refl, sym, ap, subst, ◌∙◌, String, Bool, true, Option, none, some, List,
  [], ◌∷◌, all, ltb, Bool-cases, Option-cases, if-cases, some_inj, arith, inl, inr,
}
use bardi.Facts.{Definitions, Object, PathSegment}
use bardi.Rules.{RuleOperator, Operand, Predicate, Predicates}
use bardi.Rules.Typing.{is_leaf, is_well_typed, are_well_typed}
use bardi.Rules.Text.{DateText}
use bardi.Rules.Decoding.{DecodedNode}
use bardi.Rules.Decoding.Clean.{is_clean}
use bardi.Rules.Validation.{
  max_rule_nodes, Pending, visit, nth, built, and_then, decoded_children, predicate_of,
  build_record, also, build_on, build, built_result, validated, validate_rule_v1,
}
use bardi.Rules.Validation.Sound.{node_ok, record_ok, are_ok, Sound, visit-Sound}

module _ (definitions : Definitions) where
  abbrev all_typed : List Predicate → Bool
  all_typed ps = all (λ p. is_well_typed definitions p) ps

  nth-typed :
      (ps : List Predicate) (i : ℕ) (p : Predicate)
      → all_typed ps ≡ true
      → nth ps i ≡ some p
      → is_well_typed definitions p ≡ true
  unfolding nth
  nth-typed [] i p h e = cc
  nth-typed (q ∷ ps) zero p h e =
      subst (λ x. is_well_typed definitions x ≡ true) (some_inj e) (ground arith)
  nth-typed (q ∷ ps) (suc i) p h e = nth-typed ps i p (ground arith) e

  built-typed :
      (index : ℕ) (later : List Predicate) (child : ℕ) (p : Predicate)
      → all_typed later ≡ true
      → built index later child ≡ some p
      → is_well_typed definitions p ≡ true
  unfolding built
  built-typed index later child p h e =
      elim (if-cases (ltb index child) (nth later (child - suc index)) none e) [
        | inl (_, q) ↦ nth-typed later (child - suc index) p h q
        | inr (_, q) ↦ cc
      ]

  and_then-some :
      (o : Option Predicate) (os : Option Predicates) (cs : Predicates)
      → and_then o os ≡ some cs
      → (p : Predicate) × (ps : Predicates) × (o ≡ some p)
        × (os ≡ some ps)
        × (Predicates.cons p ps ≡ cs)
  unfolding and_then
  and_then-some (some p) (some ps) cs h = (p, ps, refl, refl, some_inj h)
  and_then-some none os cs h = cc
  and_then-some (some p) none cs h = cc

  -- The children that are built are well typed, and there is one for each id.
  decoded_children-typed :
      (index : ℕ) (later : List Predicate) (ids : List ℕ) (cs : Predicates)
      → all_typed later ≡ true
      → decoded_children index later ids ≡ some cs
      → are_well_typed definitions cs ≡ true
  unfolding decoded_children are_well_typed
  decoded_children-typed index later [] cs h e =
      subst (λ x. are_well_typed definitions x ≡ true) (some_inj e) refl
  decoded_children-typed index later (id ∷ ids) cs h e =
      let (p, ps, first, rest, same) =
        and_then-some (built index later id) (decoded_children index later ids) cs e in
      let typed = built-typed index later id p h first in
      let typed_rest = decoded_children-typed index later ids ps h rest in
      subst (λ x. are_well_typed definitions x ≡ true) same (rw (typed, typed_rest) refl)

  leaf_typed :
      (op : RuleOperator) (fact : Option String) (expected : Operand)
      → is_leaf definitions op fact expected ≡ true
      → is_well_typed definitions (Predicate.predicate op fact expected Predicates.nil) ≡ true
  unfolding is_leaf is_well_typed
  leaf_typed op fact expected h = h

  only_typed :
      (p : Predicate)
      → are_well_typed definitions (Predicates.cons p Predicates.nil) ≡ true
      → is_well_typed definitions p ≡ true
  unfolding are_well_typed
  only_typed p h = ground arith

  -- A record as it must be, with its children, is a well-typed predicate.
  node_ok-typed :
      (index : ℕ) (later : List Predicate) (op : RuleOperator) (fact : Option String)
      (expected : Operand) (ids : List ℕ) (cs : Predicates)
      → node_ok definitions op fact expected ids ≡ true
      → decoded_children index later ids ≡ some cs
      → are_well_typed definitions cs ≡ true
      → is_well_typed definitions (Predicate.predicate op fact expected cs) ≡ true
  unfolding node_ok decoded_children is_well_typed
  node_ok-typed index later RuleOperator.all none Operand.absent (id ∷ ids) cs ok e typed =
      let (p, ps, _, _, same) =
        and_then-some (built index later id) (decoded_children index later ids) cs e in
      subst
        (λ x.
          is_well_typed definitions (Predicate.predicate RuleOperator.all none Operand.absent x)
          ≡ true)
        same (subst (λ x. are_well_typed definitions x ≡ true) (sym same) typed)
  node_ok-typed index later RuleOperator.any none Operand.absent (id ∷ ids) cs ok e typed =
      let (p, ps, _, _, same) =
        and_then-some (built index later id) (decoded_children index later ids) cs e in
      subst
        (λ x.
          is_well_typed definitions (Predicate.predicate RuleOperator.any none Operand.absent x)
          ≡ true)
        same (subst (λ x. are_well_typed definitions x ≡ true) (sym same) typed)
  node_ok-typed index later RuleOperator.not none Operand.absent (id ∷ []) cs ok e typed =
      let (p, ps, _, last, same) =
        and_then-some (built index later id) (decoded_children index later []) cs e in
      let single : Predicates.cons p Predicates.nil ≡ cs =
        ap (Predicates.cons p) (some_inj last) ∙ same in
      subst
        (λ x.
          is_well_typed definitions (Predicate.predicate RuleOperator.not none Operand.absent x)
          ≡ true)
        single (only_typed p (subst (λ x. are_well_typed definitions x ≡ true) (sym single) typed))
  node_ok-typed index later op fact expected [] cs ok e typed =
      subst (λ x. is_well_typed definitions (Predicate.predicate op fact expected x) ≡ true)
        (some_inj e) (leaf_typed op fact expected ok)
  node_ok-typed index later op fact expected (id ∷ ids) cs ok e typed = cc

  predicate_of-typed :
      (index : ℕ) (later : List Predicate) (r : DecodedNode) (p : Predicate)
      → all_typed later ≡ true
      → record_ok definitions (some r) ≡ true
      → predicate_of r (decoded_children index later r.child_ids) ≡ some p
      → is_well_typed definitions p ≡ true
  unfolding predicate_of record_ok
  predicate_of-typed index later r p h ok e =
      elim (Option-cases (decoded_children index later r.child_ids)) [
        | inl missing ↦ let q = rw missing at e in cc
        | inr (cs, decoded) ↦
            let typed = decoded_children-typed index later r.child_ids cs h decoded in
            subst (λ x. is_well_typed definitions x ≡ true) (some_inj (rw decoded at e))
              (node_ok-typed index later r.op r.fact r.value r.child_ids cs ok decoded typed)
      ]

  build_on-typed :
      (index : ℕ) (r : Option DecodedNode) (o : Option (List Predicate)) (ps : List Predicate)
      → record_ok definitions r ≡ true
      → ((later : List Predicate) → o ≡ some later → all_typed later ≡ true)
      → build_on index r o ≡ some ps
      → all_typed ps ≡ true
  unfolding build_on build_record also
  build_on-typed index r none ps ok ih e = cc
  build_on-typed index none (some later) ps ok ih e = cc
  build_on-typed index (some r) (some later) ps ok ih e =
      elim (Option-cases (predicate_of r (decoded_children index later r.child_ids))) [
        | inl missing ↦ let q = rw missing at e in cc
        | inr (p, decoded) ↦
            let typed = predicate_of-typed index later r p (ih later refl) ok decoded in
            subst (λ x. all_typed x ≡ true) (some_inj (rw decoded at e))
              (rw (typed, ih later refl) refl)
      ]

  build-typed :
      (index : ℕ) (records : List (Option DecodedNode)) (ps : List Predicate)
      → are_ok definitions records ≡ true
      → build index records ≡ some ps
      → all_typed ps ≡ true
  unfolding build
  build-typed index [] ps ok e = subst (λ x. all_typed x ≡ true) (some_inj e) refl
  build-typed index (r ∷ records) ps ok e =
      build_on-typed index r (build (suc index) records) ps (ground arith)
        (λ later q. build-typed (suc index) records later (ground arith) q) e

  built_result-typed :
      (o : Option (List Predicate)) (p : Predicate)
      → ((ps : List Predicate) → o ≡ some ps → all_typed ps ≡ true)
      → (built_result o).predicate ≡ some p
      → is_well_typed definitions p ≡ true
  unfolding built_result
  built_result-typed none p typed e = cc
  built_result-typed (some []) p typed e = cc
  built_result-typed (some (q ∷ ps)) p typed e =
      let h = typed (q ∷ ps) refl in
      subst (λ x. is_well_typed definitions x ≡ true) (some_inj e) (ground arith)

-- A predicate that the validation of a stored rule returns is well typed: every operator in it has
-- its parts, and every operand is a value that the definition of its Fact allows.
pub validate_rule_v1-typed :
    (dates : DateText) (raw : Object) (definitions : Definitions) (p : Predicate)
    → (validate_rule_v1 dates raw definitions).predicate ≡ some p
    → is_well_typed definitions p ≡ true
unfolding validate_rule_v1 validated Sound
validate_rule_v1-typed dates raw definitions p e =
    let pending : Pending = record {
      raw = raw;
      path = PathSegment.name "rule" ∷ [];
      record_id = 0;
    } in
    let s =
      visit dates definitions max_rule_nodes (record { diagnostics = []; records = [] })
        (pending ∷ []) in
    let sound : Sound definitions s =
      visit-Sound definitions dates max_rule_nodes (record { diagnostics = []; records = [] })
        (pending ∷ []) (λ h. refl) in
    elim (Bool-cases (is_clean s)) [
      | inl clean ↦
          built_result-typed definitions (build 0 s.records) p
            (λ ps q. build-typed definitions 0 s.records ps (sound clean) q) (rw clean at e)
      | inr reported ↦ let q = rw reported at e in cc
    ]
