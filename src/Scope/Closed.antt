-- ===== src/Scope/Closed.antt =====
-- The discovery returns a closed graph: every version of a Procedure in it, and every Procedure that
-- such a version depends on.
use bardi.Prelude.{
  ℕ, zero, suc, ◌≡◌, refl, subst, inl, inr, true, false, ◌||◌, some, [], ◌∷◌, ◌++◌, is_empty,
  Bool-cases, some_inj, arith,
}
use bardi.Scope.{IdSet, has, without, ProcedureGraph, discover, discover_procedure_graph}
use bardi.Scope.Laws.{Within, has-append, has-without}

-- A query by a set of identifiers finds at least what it finds by a smaller set.
abbrev pub Monotone : (IdSet → IdSet) → Type 0
Monotone f = (xs ys : IdSet) → Within xs ys → Within (f xs) (f ys)

has-single : (xs : IdSet) (x : ℕ) → has xs x ≡ true → Within (x ∷ []) xs
unfolding has
has-single xs x m y h = let same : x ≡ y = ground arith in subst (λ z. has xs z ≡ true) same m

absurd : {P : Type 0} (x : ℕ) → has [] x ≡ true → P
unfolding has
absurd x m = cc

has_none : (xs : IdSet) → is_empty xs ≡ true → (x : ℕ) → has xs x ≡ false
unfolding has
has_none [] h x = refl
has_none (y ∷ xs) h x = cc

module _ (versions_for targets_for : IdSet → IdSet) (initial : IdSet) where
  -- The versions of every visited Procedure are collected, and their targets and the initial
  -- Procedures are visited or waiting.
  abbrev Progress : (frontier visited version_ids : IdSet) → Type 0
  Progress frontier visited version_ids =
      ((p : ℕ) → has visited p ≡ true → Within (versions_for (p ∷ [])) version_ids)
      × ((v : ℕ)
          → has version_ids v ≡ true
          → (t : ℕ) → has (targets_for (v ∷ [])) t ≡ true
          → (has visited t || has frontier t) ≡ true)
      × ((t : ℕ) → has initial t ≡ true → (has visited t || has frontier t) ≡ true)

  abbrev pub IsClosed : ProcedureGraph → Type 0
  IsClosed g =
      ((p : ℕ) → has g.procedure_ids p ≡ true → Within (versions_for (p ∷ [])) g.version_ids)
      × ((v : ℕ) → has g.version_ids v ≡ true → Within (targets_for (v ∷ [])) g.procedure_ids)
      × Within initial g.procedure_ids

  finished :
      (frontier visited version_ids : IdSet)
      → Within frontier visited
      → Progress frontier visited version_ids
      → IsClosed (record { procedure_ids = visited; version_ids = version_ids })
  finished frontier visited version_ids done (versions, targets, begun) =
      (versions, λ v m t h. settle t (targets v m t h), λ t h. settle t (begun t h))
    where
      settle : (t : ℕ) → (has visited t || has frontier t) ≡ true → has visited t ≡ true
      settle t h = elim (Bool-cases (has visited t)) [ inl e ↦ e | inr e ↦ done t (rw e at h) ]

  module _ (more_versions : Monotone versions_for) (more_targets : Monotone targets_for) where
    advanced :
        (frontier visited version_ids : IdSet)
        → Progress frontier visited version_ids
        → let current = without frontier visited in
          let visited' = visited ++ current in
          let found = versions_for current in
          Progress (without (targets_for found) visited') visited' (version_ids ++ found)
    advanced frontier visited version_ids (versions, targets, begun) =
        let current = without frontier visited in
        let visited' = visited ++ current in
        let found = versions_for current in
        let next = without (targets_for found) visited' in
        let settled : (t : ℕ)
            → (has visited t || has frontier t) ≡ true
            → (has visited' t || has next t) ≡ true =
          λ t h.
            (let a = has-append visited current t in
              let b = has-without frontier visited t in ground (arith, a, b, h)) in
        (
          λ p m v h.
              (let q = has-append version_ids found v in
                elim (Bool-cases (has visited p)) [
                  | inl e ↦ let w = versions p e v h in rw (q, w) refl
                  | inr e ↦
                      let here : has current p ≡ true =
                        ground (arith, has-append visited current p, m, e) in
                      let w = more_versions (p ∷ []) current (has-single current p here) v h in
                      ground (arith, q, w)
                ]),
          λ v m t h. elim (Bool-cases (has version_ids v)) [
            | inl e ↦ settled t (targets v e t h)
            | inr e ↦
                let here : has found v ≡ true =
                  ground (arith, has-append version_ids found v, m, e) in
                let w = more_targets (v ∷ []) found (has-single found v here) t h in
                ground (arith, has-without (targets_for found) visited' t, w)
          ],
          λ t h. settled t (begun t h),
        )

    discover-IsClosed :
        (rounds : ℕ) (frontier visited version_ids : IdSet) (g : ProcedureGraph)
        → Progress frontier visited version_ids
        → discover versions_for targets_for rounds frontier visited version_ids ≡ some g
        → IsClosed g
    unfolding discover
    discover-IsClosed zero frontier visited version_ids g progress h = cc
    discover-IsClosed (suc rounds) [] visited version_ids g progress h =
        subst IsClosed (some_inj h) (finished [] visited version_ids (λ x m. absurd x m) progress)
    discover-IsClosed (suc rounds) (x ∷ frontier) visited version_ids g progress h =
        let current = without (x ∷ frontier) visited in
        elim (Bool-cases (is_empty current)) [
          | inl e ↦
              let done : Within (x ∷ frontier) visited = λ y m.
                (let q = has-without (x ∷ frontier) visited y in
                  let none_left = has_none current e y in ground (arith, q, none_left, m)) in
              subst IsClosed (some_inj (rw e at h))
                (finished (x ∷ frontier) visited version_ids done progress)
          | inr e ↦
              discover-IsClosed rounds _ _ _ g
                (advanced (x ∷ frontier) visited version_ids progress) (rw e at h)
        ]

-- The graph that the discovery returns is closed: it has the initial Procedures, every version that
-- the query finds for a Procedure in it, and every target that the query finds for such a version,
-- where a query by more identifiers finds at least as much.
pub discover_procedure_graph-IsClosed :
    (versions_for targets_for : IdSet → IdSet) (rounds : ℕ) (initial : IdSet) (g : ProcedureGraph)
    → Monotone versions_for
    → Monotone targets_for
    → discover_procedure_graph versions_for targets_for rounds initial ≡ some g
    → IsClosed versions_for targets_for initial g
unfolding discover_procedure_graph has
discover_procedure_graph-IsClosed versions_for targets_for rounds initial g more_versions
      more_targets h =
    discover-IsClosed versions_for targets_for initial more_versions more_targets rounds initial []
      [] g (λ p m. cc, λ v m. cc, λ t m. m) h
