-- ===== src/Versions/Laws.antt =====
-- Resolution finds the one published version that covers the date.
use bardi.Prelude.{
  ◌≡◌, refl, sym, subst, ap, ◌⊎◌, inl, inr, String, Bool, true, false, ◌||◌, Option, none, some,
  List, [], ◌∷◌, filter, any, all, is_empty, In, In-filter, filter-In, sort-In, In-sort, str_eq,
  eq_iff, none_or, if-cases, Bool-cases, if◌then◌else◌, arith,
}
use bardi.KeySet
use bardi.KeySet.{KeySet}
use bardi.Calendar.{Date, date_le}
use bardi.Calendar.Laws.{date_le_trans}
use bardi.Catalog.{KnowledgeSnapshot, ProcedureVersionSnapshot}
use bardi.Versions.{
  ProcedureVersionResolution, resolved, unavailable, configuration_defect, date_of, is_published,
  contains, overlap, starts_by, conflicts_with, conflicting, starts_after, resolve_current,
  resolve_known, is_known, all_diagnostics, versions_of, resolve_procedure_version,
}

head_false : (a b : Bool) → (a || b) ≡ false → a ≡ false
head_false a b h = ground arith

tail_false : (a b : Bool) → (a || b) ≡ false → b ≡ false
tail_false a b h = ground arith

added_not_empty : (k : String) (s : KeySet) → is_empty (KeySet.add k s) ≡ true → ⊥
added_not_empty k s h = cc (KeySet.is_empty-add k s)

starts_by_common :
    (d : Date) (start end : Option Date)
    → none_or (λ a. date_le a d) start ≡ true
    → none_or (λ b. date_le d b) end ≡ true
    → starts_by start end ≡ true
starts_by_common d none end h k = refl
starts_by_common d (some a) none h k = refl
starts_by_common d (some a) (some b) h k = date_le_trans a d b h k

-- Two versions that cover one date overlap.
overlap_of_contains :
    (d : Date) (v w : ProcedureVersionSnapshot)
    → contains d v ≡ true
    → contains d w ≡ true
    → overlap v w ≡ true
unfolding contains overlap
overlap_of_contains d v w h k = ground (
  arith,
  starts_by_common d (date_of v.effective_from) (date_of w.effective_to),
  starts_by_common d (date_of w.effective_from) (date_of v.effective_to),
)

is_empty-conflicts_with :
    (v : ProcedureVersionSnapshot) (ws : List ProcedureVersionSnapshot) (ids : KeySet)
    → is_empty (conflicts_with v ws ids) ≡ true
    → (is_empty ids ≡ true) × (any (overlap v) ws ≡ false)
unfolding conflicts_with
is_empty-conflicts_with v [] ids h = (h, refl)
is_empty-conflicts_with v (w ∷ ws) ids h =
    let more : KeySet = KeySet.add v.semantic_id (KeySet.add w.semantic_id ids) in
    let (none_yet, none_later) =
      is_empty-conflicts_with v ws (if overlap v w then more else ids) h in
    elim (if-cases (overlap v w) more ids refl) [
      | inl (_, q) ↦
          absurd (added_not_empty v.semantic_id _ (subst (λ x. is_empty x ≡ true) (sym q) none_yet))
      | inr (apart, q) ↦ (subst (λ x. is_empty x ≡ true) (sym q) none_yet, rw apart none_later)
    ]

-- No version overlaps a later one.
abbrev AreSeparate : List ProcedureVersionSnapshot → Type 0
AreSeparate [] = Unit
AreSeparate (v ∷ vs) = (any (overlap v) vs ≡ false) × AreSeparate vs

conflicting-AreSeparate :
    (vs : List ProcedureVersionSnapshot) → is_empty (conflicting vs) ≡ true → AreSeparate vs
unfolding conflicting
conflicting-AreSeparate [] h = tt
conflicting-AreSeparate (v ∷ vs) h =
    let (rest, apart) = is_empty-conflicts_with v vs (conflicting vs) h in
    (apart, conflicting-AreSeparate vs rest)

module _ (d : Date) where
  none_beside :
      (v : ProcedureVersionSnapshot) (ws : List ProcedureVersionSnapshot)
      → contains d v ≡ true
      → any (overlap v) ws ≡ false
      → filter (contains d) ws ≡ []
  none_beside v [] h apart = refl
  none_beside v (w ∷ ws) h apart = elim (Bool-cases (contains d w)) [
    | inl both ↦
        cc (overlap_of_contains d v w h both, head_false (overlap v w) (any (overlap v) ws) apart)
    | inr other ↦
        rw other (none_beside v ws h (tail_false (overlap v w) (any (overlap v) ws) apart))
  ]

  -- Of separate versions at most one covers a date.
  at_most_one :
      (vs : List ProcedureVersionSnapshot)
      → AreSeparate vs
      → (filter (contains d) vs ≡ [])
        ⊎ ((v : ProcedureVersionSnapshot) × (filter (contains d) vs ≡ v ∷ []))
  at_most_one [] h = inl refl
  at_most_one (v ∷ vs) h = elim (Bool-cases (contains d v)) [
    | inl covers ↦ inr (v, rw covers (ap (λ r. v ∷ r) (none_beside v vs covers h.0)))
    | inr not_here ↦ rw not_here (at_most_one vs h.1)
  ]

  -- What the outcome says of the published versions: which of them cover the date.
  abbrev Covering : List ProcedureVersionSnapshot → ProcedureVersionResolution → Type 0
  Covering published (resolved v up historical) =
      (filter (contains d) published ≡ v ∷ []) × (historical ≡ false)
  Covering published (unavailable reason up) = filter (contains d) published ≡ []
  Covering published (configuration_defect codes ids up) = Unit

  resolve_current-of_none :
      (up published : List ProcedureVersionSnapshot)
      → filter (contains d) published ≡ []
      → Covering published (resolve_current d up published [])
  unfolding resolve_current
  resolve_current-of_none up published h = elim (Bool-cases (is_empty published)) [
    | inl e ↦ rw e h
    | inr e ↦ elim (Bool-cases (all (starts_after d) published)) [
      | inl later ↦ rw (e, later) h
      | inr now ↦ rw (e, now) h
    ]
  ]

  resolve_current-Covering :
      (up published : List ProcedureVersionSnapshot)
      → AreSeparate published
      → Covering published (resolve_current d up published (filter (contains d) published))
  resolve_current-Covering up published h = elim (at_most_one published h) [
    | inl e ↦
        subst (λ l. Covering published (resolve_current d up published l)) (sym e)
          (resolve_current-of_none up published e)
    | inr (v, e) ↦
        subst (λ l. Covering published (resolve_current d up published l)) (sym e)
          (unfold resolve_current in (e, refl))
  ]

  -- The outcome without a historical version: what the versions of the procedure say.
  resolve_known-Covering :
      (versions published up : List ProcedureVersionSnapshot)
      → Covering published (resolve_known d none versions published up)
  unfolding resolve_known
  resolve_known-Covering versions published up =
      elim (Bool-cases (is_empty (all_diagnostics versions))) [
        | inr bad ↦ rw bad tt
        | inl fine ↦ elim (Bool-cases (is_empty (conflicting published))) [
          | inr clash ↦ rw (fine, clash) tt
          | inl apart ↦
              rw (fine, apart)
                (resolve_current-Covering up published (conflicting-AreSeparate published apart))
        ]
      ]

-- The versions that could be in force: published, of the Procedure, and covering the date.
abbrev pub InForce : KnowledgeSnapshot → String → Date → ProcedureVersionSnapshot → Type 0
InForce snapshot procedure d v =
    In v snapshot.procedure_versions
    × (v.procedure_semantic_id ≡ procedure)
    × (is_published v ≡ true)
    × (contains d v ≡ true)

abbrev published_versions : KnowledgeSnapshot → String → List ProcedureVersionSnapshot
published_versions snapshot procedure = filter is_published (versions_of snapshot procedure)

InForce-covering :
    (snapshot : KnowledgeSnapshot) (procedure : String) (d : Date) (v : ProcedureVersionSnapshot)
    → InForce snapshot procedure d v
    → In v (filter (contains d) (published_versions snapshot procedure))
unfolding versions_of
InForce-covering snapshot procedure d v (m, owned, public, covers) =
    In-filter (contains d) _ v
      (In-filter is_published _ v
        (In-sort _ _ v (In-filter _ snapshot.procedure_versions v m ((eq_iff _ _).1 owned))) public)
      covers

covering-InForce :
    (snapshot : KnowledgeSnapshot) (procedure : String) (d : Date) (v : ProcedureVersionSnapshot)
    → In v (filter (contains d) (published_versions snapshot procedure))
    → InForce snapshot procedure d v
unfolding versions_of
covering-InForce snapshot procedure d v m =
    let (n, covers) = filter-In (contains d) (published_versions snapshot procedure) v m in
    let (o, public) = filter-In is_published (versions_of snapshot procedure) v n in
    let (p, owned) =
      filter-In (λ w. str_eq w.procedure_semantic_id procedure) snapshot.procedure_versions v
        (sort-In _ _ v o) in
    (p, (eq_iff _ _).0 owned, public, covers)

InForce-owned :
    (snapshot : KnowledgeSnapshot) (procedure : String) (d : Date) (v : ProcedureVersionSnapshot)
    → InForce snapshot procedure d v
    → In v (versions_of snapshot procedure)
unfolding versions_of
InForce-owned snapshot procedure d v (m, owned, public, covers) =
    In-sort _ _ v (In-filter _ snapshot.procedure_versions v m ((eq_iff _ _).1 owned))

no_versions :
    (snapshot : KnowledgeSnapshot) (procedure : String)
    → is_known snapshot procedure (versions_of snapshot procedure) ≡ false
    → versions_of snapshot procedure ≡ []
unfolding is_known
no_versions snapshot procedure h = ground arith

only_one : (w v : ProcedureVersionSnapshot) → In w (v ∷ []) → w ≡ v
only_one w v (inl e) = sym e
only_one w v (inr m) = elim m [ ]

-- What a resolution at a date, with no historical version asked for, promises.
abbrev pub Promises : KnowledgeSnapshot → String → Date → ProcedureVersionResolution → Type 0
Promises snapshot procedure d (resolved v up historical) =
    InForce snapshot procedure d v
    × ((w : ProcedureVersionSnapshot) → InForce snapshot procedure d w → w ≡ v)
    × (historical ≡ false)
Promises snapshot procedure d (unavailable reason up) =
    (w : ProcedureVersionSnapshot) → InForce snapshot procedure d w → ⊥
Promises snapshot procedure d (configuration_defect codes ids up) = Unit

Covering-Promises :
    (snapshot : KnowledgeSnapshot) (procedure : String) (d : Date) (r : ProcedureVersionResolution)
    → Covering d (published_versions snapshot procedure) r
    → Promises snapshot procedure d r
Covering-Promises snapshot procedure d (resolved v up historical) (e, now) = (
  covering-InForce snapshot procedure d v (subst (In v) (sym e) (inl refl)),
  λ w f. only_one w v (subst (In w) e (InForce-covering snapshot procedure d w f)),
  now,
)
Covering-Promises snapshot procedure d (unavailable reason up) e =
    λ w f. elim (subst (In w) e (InForce-covering snapshot procedure d w f)) [ ]
Covering-Promises snapshot procedure d (configuration_defect codes ids up) h = tt

-- At a date, with no historical version asked for: a resolved version is published, belongs to the
-- Procedure and covers the date, and it is the only such version of the snapshot; where the outcome
-- is unavailable, there is no such version.
pub resolve_procedure_version-Promises :
    (snapshot : KnowledgeSnapshot) (procedure : String) (d : Date)
    → Promises snapshot procedure d (resolve_procedure_version snapshot procedure d none)
unfolding resolve_procedure_version
resolve_procedure_version-Promises snapshot procedure d =
    elim (Bool-cases (is_known snapshot procedure (versions_of snapshot procedure))) [
      | inl known ↦
          rw known (Covering-Promises snapshot procedure d _ (resolve_known-Covering d _ _ _))
      | inr unknown ↦ rw unknown (λ w f.
          elim (subst (In w) (no_versions snapshot procedure unknown)
            (InForce-owned snapshot procedure d w f)) [ ])
    ]
