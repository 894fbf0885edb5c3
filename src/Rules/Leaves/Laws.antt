-- ===== src/Rules/Leaves/Laws.antt =====
-- backend/planning/rules.py: what the leaf branch of validate_rule_v1 has read where it reports
-- nothing.
use bardi.Prelude.{
  not_false, ℕ, suc, ◌≡◌, refl, sym, ap, subst, String, true, false, not, ◌&&◌, Option, none, some,
  List, [], ◌∷◌, length, is_empty, eqb, leb, ltb, all, Bool-cases, arith, if◌then◌else◌, inl, inr,
  ◌∙◌, ◌||◌,
}
use bardi.Dict
use bardi.Facts.{FactValue, FactDefinition, Definitions, Object, Entries, PathSegment, value_fits}
use bardi.Rules.{RuleOperator, Operand}
use bardi.Rules.Typing.{max_in_operands, is_ordered_kind, is_ordering, is_operand, is_leaf}
use bardi.Rules.Text.{DateText, is_boolean, get_entry, decode_literal}
use bardi.Rules.Text.Fits.{decode_literal-fits}
use bardi.Rules.Decoding.{Decoding, objects}
use bardi.Rules.Decoding.Clean.{is_clean, add-unclean, report_if-clean}
use bardi.Rules.Leaves.{
  FactRead, ValueRead, OperandsRead, read_name, read_fact, read_one, note_operand, keep_operand,
  read_operands, read_list, read_many, all_decoded, check_order, check_exists, decode_entry,
  read_value, read_known, read_leaf,
}

read_name-clean :
    (s : Decoding) (path : List PathSegment) (fact : String) (o : Option FactDefinition)
    → is_clean (read_name s path fact o).state ≡ true
    → (d : FactDefinition) × (o ≡ some d)
      × (read_name s path fact o ≡ record { state = s; fact = some fact; known = some (fact, d) })
unfolding read_name
read_name-clean s path fact none h = elim (add-unclean s _ _ h) [ ]
read_name-clean s path fact (some d) h = (d, refl, refl)

-- The Fact that was read has a definition.
abbrev Known : Definitions → Decoding → FactRead → Type 0
Known definitions s r =
    (fact : String) × (d : FactDefinition) × (Dict.get definitions fact ≡ some d)
    × (r ≡ record { state = s; fact = some fact; known = some (fact, d) })

read_fact-clean :
    (definitions : Definitions) (s : Decoding) (op : String) (path : List PathSegment)
    (raw : Option Object)
    → is_clean (read_fact definitions s op path raw).state ≡ true
    → Known definitions s (read_fact definitions s op path raw)
unfolding read_fact
read_fact-clean definitions s op path none h = elim (add-unclean s _ _ h) [ ]
read_fact-clean definitions s op path (some (Object.value (FactValue.str fact))) h =
    let (d, known, same) = read_name-clean s path fact (Dict.get definitions fact) h in
    (fact, d, known, same)
read_fact-clean definitions s op path (some raw) h = elim (add-unclean s _ _ h) [ ]

read_one-clean :
    (s : Decoding) (path : List PathSegment) (fact : String) (o : Option FactValue)
    → is_clean (read_one s path fact o).state ≡ true
    → (v : FactValue) × (o ≡ some v)
      × (read_one s path fact o ≡ record { state = s; value = Operand.one v })
unfolding read_one
read_one-clean s path fact none h = elim (add-unclean s _ _ h) [ ]
read_one-clean s path fact (some v) h = (v, refl, refl)

note_operand-clean :
    (s : Decoding) (path : List PathSegment) (fact : String) (index : ℕ) (o : Option FactValue)
    → is_clean (note_operand s path fact index o) ≡ true
    → (v : FactValue) × (o ≡ some v) × (note_operand s path fact index o ≡ s)
unfolding note_operand
note_operand-clean s path fact index none h = elim (add-unclean s _ _ h) [ ]
note_operand-clean s path fact index (some v) h = (v, refl, refl)

module _ (dates : DateText) (d : FactDefinition) (path : List PathSegment) (fact : String) where
  -- The operands of a list that is read without a report.
  abbrev Operands : Decoding → List Object → OperandsRead → Type 0
  Operands s operands r =
      (r.state ≡ s)
      × (length r.decoded ≡ length operands)
      × (all (λ v. value_fits d v) r.decoded ≡ true)

  kept :
      (o : Option FactValue) (v : FactValue) (decoded : List FactValue) (n : ℕ)
      → o ≡ some v
      → value_fits d v ≡ true
      → length decoded ≡ n
      → all (λ w. value_fits d w) decoded ≡ true
      → (length (keep_operand o decoded) ≡ suc n)
        × (all (λ w. value_fits d w) (keep_operand o decoded) ≡ true)
  unfolding keep_operand
  kept o v decoded n q ok count fits = rw q (ap suc count, rw ok fits)

  read_operands-clean :
      (s : Decoding) (index : ℕ) (operands : List Object)
      → is_clean (read_operands dates d path fact s index operands).state ≡ true
      → Operands s operands (read_operands dates d path fact s index operands)
  unfolding read_operands keep_operand
  read_operands-clean s index [] h = (refl, refl, refl)
  read_operands-clean s index (raw ∷ operands) h =
      let o = decode_literal dates d raw in
      let s' = note_operand s path fact index o in
      let (same, count, fits) = read_operands-clean s' (suc index) operands h in
      let (v, decoded, unchanged) = note_operand-clean s path fact index o (rw same at h) in
      let ok = decode_literal-fits dates d v raw decoded in
      let rest = read_operands dates d path fact s' (suc index) operands in
      let (counted, fitting) = kept o v rest.decoded (length operands) decoded ok count fits in
      (same ∙ unchanged, counted, fitting)

  check_order-clean :
      (s : Decoding) (op : RuleOperator)
      → is_clean (check_order d path fact s op) ≡ true
      → (check_order d path fact s op ≡ s)
        × ((is_ordering op && not (is_ordered_kind d.kind)) ≡ false)
  unfolding check_order
  check_order-clean s op h =
      report_if-clean (is_ordering op && not (is_ordered_kind d.kind)) s _ _ h

  check_exists-clean :
      (s : Decoding)
      → is_clean (check_exists d path fact s) ≡ true
      → (check_exists d path fact s ≡ s) × (d.derived ≡ false)
  unfolding check_exists
  check_exists-clean s h = report_if-clean d.derived s _ _ h

  many_operand :
      (operands : List Object) (decoded : List FactValue)
      → length decoded ≡ length operands
      → (is_empty operands || ltb max_in_operands (length operands)) ≡ false
      → all (λ v. value_fits d v) decoded ≡ true
      → is_operand RuleOperator.in_ d
          (if eqb (length decoded) (length operands) then Operand.many decoded else Operand.absent)
        ≡ true
  unfolding is_operand
  many_operand [] decoded count e fits = cc
  many_operand (x ∷ operands) [] count e fits = ground arith
  many_operand (x ∷ operands) (v ∷ decoded) count e fits =
      let same : eqb (length (v ∷ decoded)) (length (x ∷ operands)) ≡ true = ground arith in
      let few : leb (length (v ∷ decoded)) max_in_operands ≡ true = ground arith in
      rw same (rw few fits)

  read_list-clean :
      (s : Decoding) (operands : List Object)
      → is_clean (read_list dates d path fact s operands).state ≡ true
      → ((read_list dates d path fact s operands).state ≡ s)
        × (is_operand RuleOperator.in_ d (read_list dates d path fact s operands).value ≡ true)
  unfolding read_list all_decoded
  read_list-clean s operands h =
      elim (Bool-cases (is_empty operands || ltb max_in_operands (length operands))) [
        | inl e ↦ elim (add-unclean s _ _ (rw e at h)) [ ]
        | inr e ↦
            let r = read_operands dates d path fact s 0 operands in
            let (same, count, fits) = read_operands-clean s 0 operands (rw e at h) in
            rw e (same, many_operand operands r.decoded count e fits)
      ]

  read_many-clean :
      (s : Decoding) (raw : Option Object)
      → is_clean (read_many dates d path fact s raw).state ≡ true
      → ((read_many dates d path fact s raw).state ≡ s)
        × (is_operand RuleOperator.in_ d (read_many dates d path fact s raw).value ≡ true)
  unfolding read_many
  read_many-clean s none h = elim (add-unclean s _ _ h) [ ]
  read_many-clean s (some (Object.list x)) h = read_list-clean s (objects x) h
  read_many-clean s (some raw) h = elim (add-unclean s _ _ h) [ ]

module _ (dates : DateText) (d : FactDefinition) (path : List PathSegment) (fact : String) where
  decode_entry-fits :
      (raw : Option Object) (v : FactValue)
      → decode_entry dates d raw ≡ some v
      → value_fits d v ≡ true
  unfolding decode_entry
  decode_entry-fits none v h = decode_literal-fits dates d v Object.opaque h
  decode_entry-fits (some raw) v h = decode_literal-fits dates d v raw h

  -- One operand: nothing but the order of the kind is asked besides.
  read_single-clean :
      (op : RuleOperator) (s : Decoding) (raw : Option Object)
      → is_clean
          (read_one (check_order d path fact s op) path fact (decode_entry dates d raw)).state
        ≡ true
      → (v : FactValue) × ((read_one
            (check_order d path fact s op)
            path
            fact
            (decode_entry dates d raw))
          ≡ record { state = s; value = Operand.one v })
        × (value_fits d v ≡ true)
        × ((is_ordering op && not (is_ordered_kind d.kind)) ≡ false)
  read_single-clean op s raw h =
      let s' = check_order d path fact s op in
      let o = decode_entry dates d raw in
      let (v, decoded, same) = read_one-clean s' path fact o h in
      let (before, ordered) =
        check_order-clean dates d path fact s op (subst (λ r. is_clean r.state ≡ true) same h) in
      (
        v,
        same ∙ ap (λ t. record { state = t; value = Operand.one v }) before,
        decode_entry-fits raw v decoded,
        ordered,
      )

  ordered_operand :
      (v : FactValue)
      → not (is_ordered_kind d.kind) ≡ false
      → value_fits d v ≡ true
      → (is_ordered_kind d.kind && value_fits d v) ≡ true
  ordered_operand v ordered fits = rw (not_false (is_ordered_kind d.kind) ordered, fits) refl

  abbrev Read : RuleOperator → Decoding → ValueRead → Type 0
  Read op s r = (r.state ≡ s) × (is_operand op d r.value ≡ true)

  read_value-clean :
      (op : RuleOperator) (s : Decoding) (raw : Option Object)
      → is_boolean op ≡ false
      → is_clean (read_value dates op s path fact d raw).state ≡ true
      → Read op s (read_value dates op s path fact d raw)
  unfolding read_value is_operand
  read_value-clean RuleOperator.exists s raw b h =
      let (same, source) = check_exists-clean dates d path fact s h in (same, rw source refl)
  read_value-clean RuleOperator.in_ s raw b h =
      let s' = check_order d path fact s RuleOperator.in_ in
      let (same, fits) = read_many-clean dates d path fact s' raw h in
      let (before, _) = check_order-clean dates d path fact s RuleOperator.in_ (rw same at h) in
      (same ∙ before, fits)
  read_value-clean RuleOperator.eq s raw b h =
      let (v, same, fits, ordered) = read_single-clean RuleOperator.eq s raw h in
      subst (Read RuleOperator.eq s) (sym same) (refl, fits)
  read_value-clean RuleOperator.lt s raw b h =
      let (v, same, fits, ordered) = read_single-clean RuleOperator.lt s raw h in
      subst (Read RuleOperator.lt s) (sym same) (refl, ordered_operand v ordered fits)
  read_value-clean RuleOperator.lte s raw b h =
      let (v, same, fits, ordered) = read_single-clean RuleOperator.lte s raw h in
      subst (Read RuleOperator.lte s) (sym same) (refl, ordered_operand v ordered fits)
  read_value-clean RuleOperator.gt s raw b h =
      let (v, same, fits, ordered) = read_single-clean RuleOperator.gt s raw h in
      subst (Read RuleOperator.gt s) (sym same) (refl, ordered_operand v ordered fits)
  read_value-clean RuleOperator.gte s raw b h =
      let (v, same, fits, ordered) = read_single-clean RuleOperator.gte s raw h in
      subst (Read RuleOperator.gte s) (sym same) (refl, ordered_operand v ordered fits)
  read_value-clean RuleOperator.all s raw b h = cc
  read_value-clean RuleOperator.any s raw b h = cc
  read_value-clean RuleOperator.not s raw b h = cc

module _ (dates : DateText) (definitions : Definitions) (typed_op : RuleOperator)
    (path : List PathSegment) (raw : Option Object) where
  read_known-clean :
      (s : Decoding) (known : Option (String × FactDefinition))
      → is_boolean typed_op ≡ false
      → is_clean (read_known dates typed_op s path known raw).state ≡ true
      → is_clean s ≡ true
  unfolding read_known
  read_known-clean s none b h = h
  read_known-clean s (some (fact, d)) b h =
      let (same, _) = read_value-clean dates d path fact typed_op s raw b h in rw same at h

  -- What the leaf branch makes of the Fact it has read.
  abbrev Leaf : Decoding → FactRead → Type 0
  Leaf s f =
      ((read_known dates typed_op f.state path f.known raw).state ≡ s)
      × (is_leaf definitions typed_op f.fact
            (read_known dates typed_op f.state path f.known raw).value
          ≡ true)

  known-Leaf :
      (s : Decoding) (fact : String) (d : FactDefinition)
      → Dict.get definitions fact ≡ some d
      → is_boolean typed_op ≡ false
      → is_clean (read_known dates typed_op s path (some (fact, d)) raw).state ≡ true
      → Leaf s (record { state = s; fact = some fact; known = some (fact, d) })
  unfolding read_known is_leaf
  known-Leaf s fact d known b h =
      let (same, fits) = read_value-clean dates d path fact typed_op s raw b h in
      (same, rw known fits)

-- A leaf that is read without a report satisfies the definitions, and leaves the state as it was.
pub read_leaf-clean :
    (dates : DateText) (definitions : Definitions) (typed_op : RuleOperator) (op : String)
    (s : Decoding) (path : List PathSegment) (node : Entries)
    → is_boolean typed_op ≡ false
    → is_clean (read_leaf dates definitions typed_op op s path node).state ≡ true
    → ((read_leaf dates definitions typed_op op s path node).state ≡ s)
      × (is_leaf definitions typed_op
            (read_leaf dates definitions typed_op op s path node).node.fact
            (read_leaf dates definitions typed_op op s path node).node.value
          ≡ true)
unfolding read_leaf
read_leaf-clean dates definitions typed_op op s path node b h =
    let raw = get_entry node "value" in
    let f = read_fact definitions s op path (get_entry node "fact") in
    let known = read_known-clean dates definitions typed_op path raw f.state f.known b h in
    let (fact, d, defined, same) =
      read_fact-clean definitions s op path (get_entry node "fact") known in
    let read = λ (r : FactRead).
      is_clean (read_known dates typed_op r.state path r.known raw).state ≡ true in
    subst (Leaf dates definitions typed_op path raw s) (sym same)
      (known-Leaf dates definitions typed_op path raw s fact d defined b (subst read same h))
