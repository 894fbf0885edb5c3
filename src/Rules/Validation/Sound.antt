-- ===== src/Rules/Validation/Sound.antt =====
-- backend/planning/rules.py: the records of validate_rule_v1 while nothing is reported.
use bardi.Prelude.{
  ℕ, zero, suc, ◌-◌, ◌≡◌, refl, sym, subst, String, Bool, true, false, Option, none, some, List, [],
  ◌∷◌, ◌++◌, length, all, eqb, Bool-cases, arith, ◌+++◌, inl, inr,
}
use bardi.Facts.{FactValue, Definitions, Object, Entries, PathSegment}
use bardi.Rules.{RuleOperator, Operand}
use bardi.Rules.Typing.{is_leaf}
use bardi.Rules.Text.{DateText, operator_of, is_boolean, get_entry}
use bardi.Rules.Decoding.{
  DecodedNode, Decoding, add, field_path, extended, set_record, check_fields, objects,
}
use bardi.Rules.Decoding.Clean.{is_clean, add-unclean, check_fields-clean}
use bardi.Rules.Leaves.{read_leaf}
use bardi.Rules.Leaves.Laws.{read_leaf-clean}
use bardi.Rules.Validation.{
  Pending, ids_from, min, set_boolean, descend, refused_children, process_children, process_boolean,
  process_leaf, process_node, process_operator, process_dict, process, visit,
}

-- What a record may hold where nothing is reported.
unfoldable pub node_ok : Definitions → RuleOperator → Option String → Operand → List ℕ → Bool
node_ok definitions RuleOperator.all none Operand.absent (id ∷ ids) = true
node_ok definitions RuleOperator.any none Operand.absent (id ∷ ids) = true
node_ok definitions RuleOperator.not none Operand.absent (id ∷ []) = true
node_ok definitions op fact expected [] = is_leaf definitions op fact expected
node_ok definitions op fact expected (id ∷ ids) = false

unfoldable pub record_ok : Definitions → Option DecodedNode → Bool
unfolding node_ok
record_ok definitions none = true
record_ok definitions (some r) = node_ok definitions r.op r.fact r.value r.child_ids

module _ (definitions : Definitions) where
  abbrev pub are_ok : List (Option DecodedNode) → Bool
  are_ok records = all (λ r. record_ok definitions r) records

  appended-are_ok :
      (records : List (Option DecodedNode))
      → are_ok records ≡ true
      → are_ok (records ++ (none ∷ [])) ≡ true
  unfolding record_ok
  appended-are_ok [] h = refl
  appended-are_ok (r ∷ records) h = ground (arith, appended-are_ok records)

  extended-are_ok :
      (records : List (Option DecodedNode)) (missing : ℕ)
      → are_ok records ≡ true
      → are_ok (extended records missing) ≡ true
  unfolding extended
  extended-are_ok records zero h = h
  extended-are_ok records (suc missing) h =
      extended-are_ok (records ++ (none ∷ [])) missing (appended-are_ok records h)

  set_record-are_ok :
      (records : List (Option DecodedNode)) (i : ℕ) (node : DecodedNode)
      → are_ok records ≡ true
      → record_ok definitions (some node) ≡ true
      → are_ok (set_record records i node) ≡ true
  unfolding set_record
  set_record-are_ok [] i node h ok = refl
  set_record-are_ok (r ∷ records) zero node h ok = ground arith
  set_record-are_ok (r ∷ records) (suc i) node h ok =
      ground (arith, set_record-are_ok records i node)

  -- Where nothing is reported, every record is as it must be.
  unfoldable pub Sound : Decoding → Type 0
  Sound s = is_clean s ≡ true → are_ok s.records ≡ true

  add-Sound : (s : Decoding) (code : String) (path : List PathSegment) → Sound (add s code path)
  unfolding Sound
  add-Sound s code path h = elim (add-unclean s code path h) [ ]

  refused_children-Sound :
      (op : RuleOperator) (s : Decoding) (code : String) (path : List PathSegment) (id : ℕ)
      → Sound (refused_children op (add s code path) id).state
  unfolding Sound refused_children set_boolean
  refused_children-Sound op s code path id h = elim (add-unclean s code path h) [ ]

  descend-Sound :
      (remaining : ℕ) (op : RuleOperator) (s : Decoding) (path : List PathSegment) (id : ℕ)
      (children : List Object)
      → ((first : ℕ)
          → node_ok definitions op none Operand.absent
              (ids_from first (min (length children) (suc remaining)))
            ≡ true)
      → Sound s
      → Sound (descend remaining op s path id children).state
  unfolding Sound descend set_boolean record_ok
  descend-Sound remaining op s path id children ok sound h =
      let count = min (length children) (suc remaining) in
      set_record-are_ok (extended s.records count) id
        (record {
          op = op;
          fact = none;
          value = Operand.absent;
          child_ids = ids_from (length s.records) count;
        })
        (extended-are_ok s.records count (sound h)) (ok (length s.records))

  check_fields-Sound :
      (s : Decoding) (typed_op : RuleOperator) (op : String) (path : List PathSegment)
      (node : Entries)
      → Sound s
      → Sound (check_fields s typed_op op path node)
  unfolding Sound
  check_fields-Sound s typed_op op path node sound h =
      let same = check_fields-clean s typed_op op path node h in
      subst (λ t. are_ok t.records ≡ true) (sym same) (sound (rw same at h))

  node_ok_leaf :
      (op : RuleOperator) (fact : Option String) (expected : Operand)
      → is_boolean op ≡ false
      → is_leaf definitions op fact expected ≡ true
      → node_ok definitions op fact expected [] ≡ true
  unfolding node_ok
  node_ok_leaf op fact expected b h = h

  min-suc : (n m : ℕ) → min (suc n) (suc m) ≡ suc (min n m)
  unfolding min
  min-suc n m = ground arith

  min_one : (n m : ℕ) → eqb n 1 ≡ true → min n (suc m) ≡ 1
  unfolding min
  min_one n m h = ground arith

  process_children-Sound :
      (remaining : ℕ) (op : RuleOperator) (s : Decoding) (path : List PathSegment) (id : ℕ)
      (children : List Object)
      → is_boolean op ≡ true
      → Sound s
      → Sound (process_children remaining op s path id children).state
  unfolding process_children node_ok
  process_children-Sound remaining RuleOperator.not s path id children b sound =
      elim (Bool-cases (eqb (length children) 1)) [
        | inl e ↦ rw e (
            descend-Sound remaining RuleOperator.not s path id children
              (λ first. rw (min_one (length children) remaining e) refl) sound)
        | inr e ↦ rw e (
            refused_children-Sound RuleOperator.not s "malformed_rule:not"
              (field_path path "children") id)
      ]
  process_children-Sound remaining RuleOperator.all s path id [] b sound =
      refused_children-Sound RuleOperator.all s "empty_boolean_composition:all"
        (field_path path "children") id
  process_children-Sound remaining RuleOperator.any s path id [] b sound =
      refused_children-Sound RuleOperator.any s "empty_boolean_composition:any"
        (field_path path "children") id
  process_children-Sound remaining RuleOperator.all s path id (x ∷ children) b sound =
      descend-Sound remaining RuleOperator.all s path id (x ∷ children)
        (λ first. rw (min-suc (length children) remaining) refl) sound
  process_children-Sound remaining RuleOperator.any s path id (x ∷ children) b sound =
      descend-Sound remaining RuleOperator.any s path id (x ∷ children)
        (λ first. rw (min-suc (length children) remaining) refl) sound
  process_children-Sound remaining op s path id children b sound = cc

  process_boolean-Sound :
      (remaining : ℕ) (typed_op : RuleOperator) (op : String) (s : Decoding)
      (path : List PathSegment) (id : ℕ) (raw : Option Object)
      → is_boolean typed_op ≡ true
      → Sound s
      → Sound (process_boolean remaining typed_op op s path id raw).state
  unfolding process_boolean
  process_boolean-Sound remaining typed_op op s path id (some (Object.list children)) b sound =
      process_children-Sound remaining typed_op s path id (objects children) b sound
  process_boolean-Sound remaining typed_op op s path id raw b sound =
      refused_children-Sound typed_op s ("malformed_rule:" +++ op) (field_path path "children") id

  module _ (dates : DateText) where
    process_leaf-Sound :
        (typed_op : RuleOperator) (op : String) (s : Decoding) (path : List PathSegment) (id : ℕ)
        (node : Entries)
        → is_boolean typed_op ≡ false
        → Sound s
        → Sound (process_leaf dates definitions typed_op op s path id node).state
    unfolding process_leaf Sound record_ok read_leaf
    process_leaf-Sound typed_op op s path id node b sound h =
        let r = read_leaf dates definitions typed_op op s path node in
        let (same, leaf) = read_leaf-clean dates definitions typed_op op s path node b h in
        let before : are_ok r.state.records ≡ true =
          subst (λ t. are_ok t.records ≡ true) (sym same) (sound (rw same at h)) in
        set_record-are_ok r.state.records id r.node before
          (node_ok_leaf typed_op r.node.fact r.node.value b leaf)

    process_operator-Sound :
        (remaining : ℕ) (o : Option RuleOperator) (op : String) (s : Decoding)
        (path : List PathSegment) (id : ℕ) (node : Entries)
        → Sound s
        → Sound (process_operator dates definitions remaining o op s path id node).state
    unfolding process_operator process_node
    process_operator-Sound remaining none op s path id node sound =
        add-Sound s ("unsupported_rule_operator:" +++ op) (field_path path "op")
    process_operator-Sound remaining (some typed_op) op s path id node sound =
        let s' = check_fields s typed_op op path node in
        let checked = check_fields-Sound s typed_op op path node sound in
        elim (Bool-cases (is_boolean typed_op)) [
          | inl e ↦ rw e (
              process_boolean-Sound remaining typed_op op s' path id (get_entry node "children") e
                checked)
          | inr e ↦ rw e (process_leaf-Sound typed_op op s' path id node e checked)
        ]

    process_dict-Sound :
        (remaining : ℕ) (raw : Option Object) (s : Decoding) (path : List PathSegment) (id : ℕ)
        (node : Entries)
        → Sound s
        → Sound (process_dict dates definitions remaining raw s path id node).state
    unfolding process_dict
    process_dict-Sound remaining (some (Object.value (FactValue.str op))) s path id node sound =
        process_operator-Sound remaining (operator_of op) op s path id node sound
    process_dict-Sound remaining raw s path id node sound =
        add-Sound s "malformed_rule:<unknown>" (field_path path "op")

    process-Sound :
        (remaining : ℕ) (s : Decoding) (raw : Object) (path : List PathSegment) (id : ℕ)
        → Sound s
        → Sound (process dates definitions remaining s raw path id).state
    unfolding process
    process-Sound remaining s (Object.dict node) path id sound =
        process_dict-Sound remaining (get_entry node "op") s path id node sound
    process-Sound remaining s raw path id sound = add-Sound s "malformed_rule:<unknown>" path

    pub visit-Sound :
        (remaining : ℕ) (s : Decoding) (stack : List Pending)
        → Sound s
        → Sound (visit dates definitions remaining s stack)
    unfolding visit Sound
    visit-Sound remaining s [] sound = sound
    visit-Sound zero s (p ∷ stack) sound =
        add-Sound s "rule_too_large" (PathSegment.name "rule" ∷ [])
    visit-Sound (suc remaining) s (p ∷ stack) sound =
        let missing = suc p.record_id - length s.records in
        let s' : Decoding = record s { records = extended s.records missing } in
        let r = process dates definitions remaining s' p.raw p.path p.record_id in
        visit-Sound remaining r.state (r.pushed ++ stack) (
          process-Sound remaining s' p.raw p.path p.record_id
            (λ h. extended-are_ok s.records missing (sound h)))
