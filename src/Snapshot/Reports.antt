-- ===== src/Snapshot/Reports.antt =====
-- What a load error reports: every failure of every row, and nothing else.
use bardi.Prelude.{
  ◌≡◌, refl, sym, subst, inl, inr, ◌⊎◌, Bool, List, [], ◌∷◌, ◌++◌, In, sort, sort-In, In-sort,
  str_lt,
}
use bardi.Snapshot.{
  StoredRuleLoadDiagnostic, Loaded, load_error, knowledge_snapshot_load_error, raise_failures,
  Outcome, Stage, set_entry, each_row,
}

module _ {A : Type 0} where
  In-append : (xs ys : List A) (a : A) → In a (xs ++ ys) → In a xs ⊎ In a ys
  In-append [] ys a m = inr m
  In-append (x ∷ xs) ys a (inl e) = inl (inl e)
  In-append (x ∷ xs) ys a (inr m) = elim (In-append xs ys a m) [
    | inl n ↦ inl (inr n)
    | inr n ↦ inr n
  ]

  append-In_left : (xs ys : List A) (a : A) → In a xs → In a (xs ++ ys)
  append-In_left [] ys a m = elim m [ ]
  append-In_left (x ∷ xs) ys a (inl e) = inl e
  append-In_left (x ∷ xs) ys a (inr m) = inr (append-In_left xs ys a m)

  append-In_right : (xs ys : List A) (a : A) → In a ys → In a (xs ++ ys)
  append-In_right [] ys a m = m
  append-In_right (x ∷ xs) ys a m = inr (append-In_right xs ys a m)

  load_error_inj :
      {xs ys : List StoredRuleLoadDiagnostic}
      → ◌≡◌ {A = Loaded A} (load_error xs) (load_error ys)
      → xs ≡ ys
  load_error_inj q = cc

  -- The diagnostics of a load error are the failures.
  load_error-In :
      (failures ds : List StoredRuleLoadDiagnostic) (a : A) (d : StoredRuleLoadDiagnostic)
      → raise_failures failures a ≡ load_error ds
      → (In d ds → In d failures) × (In d failures → In d ds)
  unfolding raise_failures knowledge_snapshot_load_error
  load_error-In [] ds a d h = cc
  load_error-In (f ∷ failures) ds a d h =
      let before = λ (a b : StoredRuleLoadDiagnostic). str_lt a.owner_id b.owner_id in
      let same : sort before (f ∷ failures) ≡ ds = load_error_inj h in
      (
        λ m. sort-In before (f ∷ failures) d (subst (In d) (sym same) m),
        λ m. subst (In d) same (In-sort before (f ∷ failures) d m),
      )

module _ {R K V : Type 0} (same : K → K → Bool) (outcome : R → Outcome K V) where
  each_row-In :
      (s : Stage K V) (rows : List R) (d : StoredRuleLoadDiagnostic)
      → In d (each_row same outcome s rows).failures
      → In d s.failures ⊎ ((row : R) × In row rows × In d (outcome row).reported)
  unfolding each_row
  each_row-In s [] d m = inl m
  each_row-In s (row ∷ rows) d m =
      let o = outcome row in
      let s' : Stage K V = record {
        failures = s.failures ++ o.reported;
        rules = set_entry same s.rules o.entry;
      } in
      elim (each_row-In s' rows d m) [
        | inr (r, n, q) ↦ inr (r, inr n, q)
        | inl n ↦ elim (In-append s.failures o.reported d n) [
          | inl k ↦ inl k
          | inr k ↦ inr (row, inl refl, k)
        ]
      ]

  kept :
      (s : Stage K V) (rows : List R) (d : StoredRuleLoadDiagnostic)
      → In d s.failures
      → In d (each_row same outcome s rows).failures
  unfolding each_row
  kept s [] d m = m
  kept s (row ∷ rows) d m =
      let o = outcome row in
      kept (record { failures = s.failures ++ o.reported; rules = set_entry same s.rules o.entry })
        rows d (append-In_left s.failures o.reported d m)

  reported-In :
      (s : Stage K V) (rows : List R) (row : R) (d : StoredRuleLoadDiagnostic)
      → In row rows
      → In d (outcome row).reported
      → In d (each_row same outcome s rows).failures
  unfolding each_row
  reported-In s [] row d m q = elim m [ ]
  reported-In s (r ∷ rows) row d (inl e) q =
      let o = outcome r in
      kept (record { failures = s.failures ++ o.reported; rules = set_entry same s.rules o.entry })
        rows d
        (append-In_right s.failures o.reported d (subst (λ x. In d (outcome x).reported) (sym e) q))
  reported-In s (r ∷ rows) row d (inr m) q =
      let o = outcome r in
      reported-In
        (record { failures = s.failures ++ o.reported; rules = set_entry same s.rules o.entry })
        rows row d m q

  -- A stage on its own: what its load error reports.
  pub each_row-load_error :
      (rows : List R) (ds : List StoredRuleLoadDiagnostic) (d : StoredRuleLoadDiagnostic)
      → (let s = each_row same outcome (record { failures = []; rules = [] }) rows in
          raise_failures s.failures s.rules ≡ load_error ds)
      → (In d ds → (row : R) × In row rows × In d (outcome row).reported)
        × ((row : R) → In row rows → In d (outcome row).reported → In d ds)
  each_row-load_error rows ds d h =
      let start : Stage K V = record { failures = []; rules = [] } in
      let s = each_row same outcome start rows in
      let (down, up) = load_error-In s.failures ds s.rules d h in
      (
        λ m. elim (each_row-In start rows d (down m)) [ inl n ↦ elim n [ ] | inr found ↦ found ],
        λ row m q. up (reported-In start rows row d m q),
      )
