-- ===== src/Facts/Submitted.antt =====
-- What validation makes of the submitted entries: it copies them, and loses none.
use bardi.Prelude.{
  ◌≡◌, refl, sym, ap, ◌∙◌, subst, ◌⊎◌, inl, inr, String, Bool, true, none, some, List, [], ◌∷◌, In,
  any, is_empty, is_some, sort, sort-In, any-sort, str_lt, str_eq, eq_iff, some_inj, ◌&&◌, ◌||◌,
  Bool-cases, Option-cases, if-cases, arith,
}
use bardi.KeySet
use bardi.KeySet.{KeySet}
use bardi.Dict
use bardi.Dict.{Dict}
use bardi.Prelude.{if◌then◌else◌}
use bardi.Facts.{FactValidationResult}
use bardi.Facts.{
  Definitions, FactValue, FactDefinition, Object, Checked, refused, accepted, check_value,
  check_fact, Copying, record_checked, validate_from, validate_submitted_facts, fact_diagnostic,
  value_fits,
}
use bardi.Facts.Accepted.{accepted_inj}
use bardi.Facts.Laws.{is_empty-validate_from, record_checked-is_empty}

module _ {V : Type 0} where
  -- The key stands in the list of entries.
  abbrev pub has_key : List (String × V) → String → Bool
  has_key entries k = any (λ e. str_eq e.0 k) entries

  put-In :
      (m : Dict V) (k : String) (v : V) (e : String × V)
      → In e (Dict.put m k v)
      → (e ≡ (k, v)) ⊎ In e m
  unfolding Dict.put
  put-In [] k v e (inl q) = inl (sym q)
  put-In [] k v e (inr n) = elim n [ ]
  put-In ((j, w) ∷ m) k v e n = elim (Bool-cases (str_eq j k)) [
    | inl same ↦
        let i : In e ((k, v) ∷ m) = rw same at n in
        elim i [ inl p ↦ inl (sym p) | inr l ↦ inr (inr l) ]
    | inr other ↦ elim (Bool-cases (str_lt k j)) [
      | inl before ↦
          let i : In e ((k, v) ∷ (j, w) ∷ m) = rw (other, before) at n in
          elim i [ inl p ↦ inl (sym p) | inr l ↦ inr l ]
      | inr after ↦
          let i : In e ((j, w) ∷ Dict.put m k v) = rw (other, after) at n in
          elim i [
            | inl p ↦ inr (inl p)
            | inr l ↦ elim (put-In m k v e l) [ inl p ↦ inl p | inr later ↦ inr (inr later) ]
          ]
    ]
  ]

  has_key-put :
      (m : Dict V) (k j : String) (v : V) → has_key (Dict.put m k v) j ≡ (str_eq k j || has_key m j)
  unfolding Dict.put
  has_key-put [] k j v = refl
  has_key-put ((i, w) ∷ m) k j v =
      ground (arith, eq_iff i k, eq_iff i j, eq_iff k j, has_key-put m k j v)

  pub is_some-get : (m : Dict V) (k : String) → is_some (Dict.get m k) ≡ has_key m k
  unfolding Dict.get
  is_some-get [] k = refl
  is_some-get ((j, v) ∷ m) k = ground (arith, is_some-get m k)

  pub get-In : (m : Dict V) (k : String) (v : V) → Dict.get m k ≡ some v → In (k, v) m
  unfolding Dict.get
  get-In [] k v h = cc
  get-In ((j, w) ∷ m) k v h = elim (if-cases (str_eq j k) _ _ h) [
    | inl (same, q) ↦ inl (λ i. ((eq_iff j k).0 same i, some_inj q i))
    | inr (other, q) ↦ inr (get-In m k v q)
  ]

  pub member-keys : (m : Dict V) (k : String) → KeySet.member k (Dict.keys m) ≡ has_key m k
  unfolding Dict.keys KeySet.member
  member-keys [] k = refl
  member-keys ((j, v) ∷ m) k = ground (arith, KeySet.member-add k j (Dict.keys m), member-keys m k)

module _ {V : Type 0} (before : (String × V) → (String × V) → Bool) where
  has_key-sort :
      (entries : List (String × V)) (k : String)
      → has_key (sort before entries) k ≡ has_key entries k
  has_key-sort entries k = any-sort before (λ e. str_eq e.0 k) entries

module _ (definitions : Definitions) where
  check_value-raw :
      (d : FactDefinition) (key : String) (raw : Object) (v : FactValue)
      → check_value d key raw ≡ accepted v
      → raw ≡ Object.value v
  unfolding check_value
  check_value-raw d key (Object.value w) v h =
      elim (if-cases (value_fits d w) (accepted w)
        (refused (fact_diagnostic "invalid_fact_value:" key)) h) [
          | inl (_, e) ↦ ap Object.value (accepted_inj definitions w v e)
          | inr (_, e) ↦ cc
        ]
  check_value-raw d key (Object.list x) v h = cc
  check_value-raw d key (Object.dict x) v h = cc
  check_value-raw d key Object.opaque v h = cc

  check_fact-raw :
      (key : String) (raw : Object) (v : FactValue)
      → check_fact definitions key raw ≡ accepted v
      → raw ≡ Object.value v
  unfolding check_fact
  check_fact-raw key raw v h = elim (Option-cases (Dict.get definitions key)) [
    | inl e ↦ let q = rw (e, check_fact) at h in cc
    | inr (d, e) ↦
        elim (if-cases d.derived (refused (fact_diagnostic "derived_fact_cannot_be_submitted:" key))
          (check_value d key raw) (rw (e, check_fact) at h)) [
            | inl (_, q) ↦ cc
            | inr (_, q) ↦ check_value-raw d key raw v q
          ]
  ]

  abbrev entry : String → Object → String × Object
  entry key raw = (key, raw)

  -- What a round copies of an entry, it copies under its key.
  record_checked-In :
      (s : Copying) (key : String) (raw : Object) (e : String × FactValue)
      → In e (record_checked s key (check_fact definitions key raw)).copied
      → (entry key raw ≡ entry e.0 (Object.value e.1)) ⊎ In e s.copied
  unfolding record_checked
  record_checked-In s key raw e m = copied_of (check_fact definitions key raw) refl m
    where
      copied_of :
          (c : Checked)
          → check_fact definitions key raw ≡ c
          → In e (record_checked s key c).copied
          → (entry key raw ≡ entry e.0 (Object.value e.1)) ⊎ In e s.copied
      copied_of (refused d) q n = inr n
      copied_of (accepted v) q n = elim (put-In s.copied key v e n) [
        | inl same ↦ inl (
            ap (entry key) (check_fact-raw key raw v q)
            ∙ sym (ap (λ x. entry x.0 (Object.value x.1)) same))
        | inr old ↦ inr old
      ]

  validate_from-In :
      (s : Copying) (entries : List (String × Object)) (e : String × FactValue)
      → In e (validate_from definitions s entries).copied
      → In (e.0, Object.value e.1) entries ⊎ In e s.copied
  unfolding validate_from
  validate_from-In s [] e m = inr m
  validate_from-In s ((key, raw) ∷ entries) e m =
      elim (validate_from-In (record_checked s key (check_fact definitions key raw)) entries e m) [
        | inl later ↦ inl (inr later)
        | inr n ↦ elim (record_checked-In s key raw e n) [
          | inl same ↦ inl (inl same)
          | inr old ↦ inr old
        ]
      ]

  record_checked-has_key :
      (s : Copying) (key : String) (c : Checked) (j : String)
      → is_empty (record_checked s key c).diagnostics ≡ true
      → has_key (record_checked s key c).copied j ≡ (str_eq key j || has_key s.copied j)
  unfolding record_checked
  record_checked-has_key s key (accepted v) j h = has_key-put s.copied key j v
  record_checked-has_key s key (refused d) j h =
      let q = record_checked-is_empty s key (refused d) in ground (arith, q)

  first_empty : (a b : Bool) → (a && b) ≡ true → a ≡ true
  first_empty a b h = ground arith

  or_swap :
      (result here old later : Bool)
      → result ≡ ((here || old) || later)
      → result ≡ (old || (here || later))
  or_swap result here old later h = ground arith

  validate_from-has_key :
      (s : Copying) (entries : List (String × Object)) (j : String)
      → is_empty (validate_from definitions s entries).diagnostics ≡ true
      → has_key (validate_from definitions s entries).copied j
        ≡ (has_key s.copied j || has_key entries j)
  unfolding validate_from
  validate_from-has_key s [] j h = ground arith
  validate_from-has_key s ((key, raw) ∷ entries) j h =
      let c = check_fact definitions key raw in
      let s' = record_checked s key c in
      let silent =
        first_empty (is_empty s'.diagnostics) _
          (sym (is_empty-validate_from definitions s' entries) ∙ h) in
      let rest = validate_from-has_key s' entries j h in
      or_swap _ (str_eq key j) (has_key s.copied j) (has_key entries j)
        (rest ∙ ap (λ b. b || has_key entries j) (record_checked-has_key s key c j silent))

  -- The validated Facts hold entries that were submitted, and every submitted key.
  abbrev pub Copies : List (String × Object) → Dict FactValue → Type 0
  Copies entries source =
      ((k : String) (v : FactValue) → In (k, v) source → In (k, Object.value v) entries)
      × ((k : String) → has_key source k ≡ has_key entries k)

  -- what validation returns after the loop
  abbrev reported : Copying → FactValidationResult
  reported s =
      if is_empty s.diagnostics
      then record { facts = some s.copied; diagnostics = [] }
      else record { facts = none; diagnostics = s.diagnostics }

  facts-cases :
      (s : Copying) (source : Dict FactValue)
      → (reported s).facts ≡ some source
      → (is_empty s.diagnostics ≡ true) × (s.copied ≡ source)
  facts-cases s source h = elim (Bool-cases (is_empty s.diagnostics)) [
    | inl e ↦ (e, some_inj (rw e at h))
    | inr e ↦ let q = rw e at h in cc q
  ]

  pub validate_submitted_facts-Copies :
      (facts : Dict Object) (source : Dict FactValue)
      → (validate_submitted_facts definitions facts).facts ≡ some source
      → Copies facts source
  unfolding validate_submitted_facts
  validate_submitted_facts-Copies facts source h =
      let before : (String × Object) → (String × Object) → Bool = λ a b. str_lt a.0 b.0 in
      let start : Copying = record { diagnostics = []; copied = [] } in
      let s = validate_from definitions start (sort before facts) in
      let (silent, q) = facts-cases s source h in
      subst (Copies facts) q (
        λ k v n. elim (validate_from-In start (sort before facts) (k, v) n) [
          | inl m ↦ sort-In before facts (k, Object.value v) m
          | inr m ↦ elim m [ ]
        ],
        λ k. validate_from-has_key start (sort before facts) k silent ∙ has_key-sort before facts k,
      )
