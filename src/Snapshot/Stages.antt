-- ===== src/Snapshot/Stages.antt =====
-- The loop over the rows of one stage: when it reports nothing, and what is in its table.
use bardi.Prelude.{
  ◌≡◌, refl, subst, ◌∙◌, inl, inr, Bool, true, false, ◌&&◌, Option, none, some, List, [], ◌∷◌, ◌++◌,
  is_empty, all, All, Bool-cases, arith,
}
use bardi.Snapshot.{
  StoredRuleLoadDiagnostic, Loaded, loaded, load_error, knowledge_snapshot_load_error,
  raise_failures, Table, set, Outcome, Stage, set_entry, each_row,
}

abbrev pub is_loaded : {A : Type 0} → Loaded A → Bool
is_loaded (loaded a) = true
is_loaded (load_error ds) = false

module _ {A : Type 0} where
  pub is_empty-append : (xs ys : List A) → is_empty (xs ++ ys) ≡ (is_empty xs && is_empty ys)
  is_empty-append [] ys = refl
  is_empty-append (x ∷ xs) ys = refl

  pub raise_failures-is_loaded :
      (failures : List StoredRuleLoadDiagnostic) (a : A)
      → is_loaded (raise_failures failures a) ≡ is_empty failures
  unfolding raise_failures knowledge_snapshot_load_error
  raise_failures-is_loaded [] a = refl
  raise_failures-is_loaded (d ∷ failures) a = refl

  pub raise_failures-loaded :
      (failures : List StoredRuleLoadDiagnostic) (a b : A)
      → raise_failures failures a ≡ loaded b
      → (is_empty failures ≡ true) × (a ≡ b)
  unfolding raise_failures knowledge_snapshot_load_error
  raise_failures-loaded [] a b h = (refl, cc)
  raise_failures-loaded (d ∷ failures) a b h = cc

module _ {R : Type 0} (p q : R → Bool) where
  pub all_ext : ((row : R) → p row ≡ q row) → (rows : List R) → all p rows ≡ all q rows
  all_ext h [] = refl
  all_ext h (row ∷ rows) = ground (arith, h row, all_ext h rows)

module _ {K V : Type 0} (P : K → V → Type 0) where
  -- Every entry of a table is as it must be.
  abbrev pub AllEntries : Table K V → Type 0
  AllEntries t = All (λ e. P e.0 e.1) t

-- Nothing is reported for a row.
abbrev pub is_accepted : {R K V : Type 0} → (R → Outcome K V) → R → Bool
is_accepted outcome row = is_empty (outcome row).reported

module _ {R K V : Type 0} (same : K → K → Bool) (outcome : R → Outcome K V) where
  pub is_empty-each_row :
      (s : Stage K V) (rows : List R)
      → is_empty (each_row same outcome s rows).failures
        ≡ (is_empty s.failures && all (λ row. is_empty (outcome row).reported) rows)
  unfolding each_row
  is_empty-each_row s [] = ground arith
  is_empty-each_row s (row ∷ rows) =
      let o = outcome row in
      let s' : Stage K V = record {
        failures = s.failures ++ o.reported;
        rules = set_entry same s.rules o.entry;
      } in
      ground (arith, is_empty-each_row s' rows, is_empty-append s.failures o.reported)

  module _ (P : K → V → Type 0) where
    set-AllEntries :
        (t : Table K V) (k : K) (v : V) → AllEntries P t → P k v → AllEntries P (set same t k v)
    unfolding set
    set-AllEntries [] k v h p = (p, tt)
    set-AllEntries ((j, w) ∷ t) k v h p = elim (Bool-cases (same j k)) [
      | inl e ↦ rw e (p, h.1)
      | inr e ↦ rw e (h.0, set-AllEntries t k v h.1 p)
    ]

    set_entry-AllEntries :
        (t : Table K V) (entry : Option (K × V))
        → AllEntries P t
        → ((k : K) (v : V) → entry ≡ some (k, v) → P k v)
        → AllEntries P (set_entry same t entry)
    unfolding set_entry
    set_entry-AllEntries t none h p = h
    set_entry-AllEntries t (some (k, v)) h p = set-AllEntries t k v h (p k v refl)

    -- What holds of every entry that a row sets holds of the table.
    pub each_row-AllEntries :
        (s : Stage K V) (rows : List R)
        → ((row : R) (k : K) (v : V) → (outcome row).entry ≡ some (k, v) → P k v)
        → AllEntries P s.rules
        → AllEntries P (each_row same outcome s rows).rules
    unfolding each_row
    each_row-AllEntries s [] p h = h
    each_row-AllEntries s (row ∷ rows) p h =
        let o = outcome row in
        let s' : Stage K V = record {
          failures = s.failures ++ o.reported;
          rules = set_entry same s.rules o.entry;
        } in
        each_row-AllEntries s' rows p (set_entry-AllEntries s.rules o.entry h (p row))

module _ {R K V : Type 0} (same : K → K → Bool) (outcome : R → Outcome K V) where
  -- A stage on its own: it loads exactly if nothing is reported for any row.
  pub each_row-is_loaded :
      (valid : R → Bool) (rows : List R)
      → ((row : R) → is_empty (outcome row).reported ≡ valid row)
      → let s = each_row same outcome (record { failures = []; rules = [] }) rows in
        is_loaded (raise_failures s.failures s.rules) ≡ all valid rows
  each_row-is_loaded valid rows h =
      let start : Stage K V = record { failures = []; rules = [] } in
      let s = each_row same outcome start rows in
      raise_failures-is_loaded s.failures s.rules
      ∙ is_empty-each_row same outcome start rows
      ∙ all_ext (λ row. is_empty (outcome row).reported) valid h rows

  pub each_row-loaded :
      (P : K → V → Type 0) (rows : List R) (t : Table K V)
      → ((row : R) (k : K) (v : V) → (outcome row).entry ≡ some (k, v) → P k v)
      → (let s = each_row same outcome (record { failures = []; rules = [] }) rows in
          raise_failures s.failures s.rules ≡ loaded t)
      → AllEntries P t
  each_row-loaded P rows t p h =
      let start : Stage K V = record { failures = []; rules = [] } in
      let s = each_row same outcome start rows in
      let (_, e) = raise_failures-loaded s.failures s.rules t h in
      subst (AllEntries P) e (each_row-AllEntries same outcome P start rows p tt)

-- A stage on the failures of those before it.
module _ {R K V : Type 0} (same : K → K → Bool) (outcome : R → Outcome K V) where
  abbrev pub next_failures : List StoredRuleLoadDiagnostic → List R → List StoredRuleLoadDiagnostic
  next_failures failures rows =
      (each_row same outcome (record { failures = failures; rules = [] }) rows).failures

  pub after :
      (failures : List StoredRuleLoadDiagnostic) (before : Bool) (rows : List R) (valid : R → Bool)
      → ((row : R) → is_empty (outcome row).reported ≡ valid row)
      → is_empty failures ≡ before
      → is_empty (next_failures failures rows) ≡ (before && all valid rows)
  after failures before rows valid h silent =
      is_empty-each_row same outcome (record { failures = failures; rules = [] }) rows
      ∙ ground (arith, silent, all_ext (λ row. is_empty (outcome row).reported) valid h rows)
