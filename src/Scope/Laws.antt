-- ===== src/Scope/Laws.antt =====
-- The discovery ends, and its result is closed.
use bardi.Prelude.{
  ℕ, zero, suc, ◌≤◌, ◌<◌, ◌≡◌, refl, ap, ◌∙◌, inl, inr, true, false, not, ◌&&◌, ◌||◌, [], ◌∷◌, ◌++◌,
  length, eqb, is_empty, is_some, Bool-cases, arith,
}
use bardi.Scope.{IdSet, has, without, discover, discover_procedure_graph}

-- Every member of the one is a member of the other.
abbrev pub Within : IdSet → IdSet → Type 0
Within xs ys = (x : ℕ) → has xs x ≡ true → has ys x ≡ true

pub has-append : (xs ys : IdSet) (x : ℕ) → has (xs ++ ys) x ≡ (has xs x || has ys x)
unfolding has
has-append [] ys x = refl
has-append (y ∷ xs) ys x = ground (arith, has-append xs ys x)

pub has-without : (xs ys : IdSet) (x : ℕ) → has (without xs ys) x ≡ (has xs x && not (has ys x))
unfolding has without
has-without [] ys x = refl
has-without (y ∷ xs) ys x = elim (Bool-cases (eqb y x)) [
  | inl e ↦
      let same : y ≡ x = ground arith in
      let q : has ys y ≡ has ys x = ap (has ys) same in ground (arith, has-without xs ys x, e, q)
  | inr e ↦ ground (arith, has-without xs ys x, e)
]

-- What is left of a universe once more is visited.
without-shrinks :
    (u visited current : IdSet)
    → length (without u (visited ++ current)) ≤ length (without u visited)
unfolding without
without-shrinks [] visited current = ground arith
without-shrinks (y ∷ u) visited current =
    ground (arith, without-shrinks u visited current, has-append visited current y)

without-strict :
    (u visited current : IdSet) (x : ℕ)
    → has u x ≡ true
    → has visited x ≡ false
    → has current x ≡ true
    → length (without u (visited ++ current)) < length (without u visited)
unfolding without has
without-strict [] visited current x m fresh now = cc
without-strict (y ∷ u) visited current x m fresh now = elim (Bool-cases (eqb y x)) [
  | inl e ↦
      let same : y ≡ x = ground arith in
      let unseen : has visited y ≡ false = ap (has visited) same ∙ fresh in
      let seen : has current y ≡ true = ap (has current) same ∙ now in
      ground (arith, without-shrinks u visited current, has-append visited current y, unseen, seen)
  | inr e ↦ ground (arith, without-strict u visited current x, has-append visited current y, e)
]

has_some : (xs : IdSet) → is_empty xs ≡ false → (x : ℕ) × (has xs x ≡ true)
unfolding has
has_some [] h = cc
has_some (x ∷ xs) h = let q : eqb x x ≡ true = ground arith in (x, rw q refl)

without-Within : (xs ys : IdSet) (u : IdSet) → Within xs u → Within (without xs ys) u
without-Within xs ys u inside x m = let q = has-without xs ys x in inside x (ground (arith, q, m))

module _ (versions_for targets_for : IdSet → IdSet) (universe : IdSet) where
  -- Enough rounds: more than there are Procedures that are not visited.
  discover-is_some :
      (rounds : ℕ) (frontier visited version_ids : IdSet)
      → ((vs : IdSet) → Within (targets_for vs) universe)
      → Within frontier universe
      → length (without universe visited) < rounds
      → is_some (discover versions_for targets_for rounds frontier visited version_ids) ≡ true
  unfolding discover
  discover-is_some zero frontier visited version_ids known inside enough = ground arith
  discover-is_some (suc rounds) [] visited version_ids known inside enough = refl
  discover-is_some (suc rounds) (x ∷ frontier) visited version_ids known inside enough =
      let current = without (x ∷ frontier) visited in
      let visited' = visited ++ current in
      let next = without (targets_for (versions_for current)) visited' in
      elim (Bool-cases (is_empty current)) [
        | inl e ↦ rw e refl
        | inr e ↦
            let (y, here) = has_some current e in
            let m = has-without (x ∷ frontier) visited y in
            let old : has (x ∷ frontier) y ≡ true = ground (arith, m, here) in
            let fresh : has visited y ≡ false = ground (arith, m, here) in
            let fewer = without-strict universe visited current y (inside y old) fresh here in
            rw e (
              discover-is_some rounds next visited' (version_ids ++ versions_for current) known
                (without-Within (targets_for (versions_for current)) visited' universe
                  (known (versions_for current)))
                (ground (arith, fewer, enough)))
      ]

enough : (u : IdSet) → length (without u []) < suc (length u)
unfolding without has
enough [] = ground arith
enough (x ∷ u) = ground (arith, enough u)

-- With a round for each Procedure that there is and one more, the discovery returns, whatever cycles
-- the dependencies have: the initial Procedures and the targets of every set of versions are among
-- them.
pub discover_procedure_graph-is_some :
    (versions_for targets_for : IdSet → IdSet) (universe initial : IdSet)
    → ((vs : IdSet) → Within (targets_for vs) universe)
    → Within initial universe
    → is_some (discover_procedure_graph versions_for targets_for (suc (length universe)) initial)
      ≡ true
unfolding discover_procedure_graph
discover_procedure_graph-is_some versions_for targets_for universe initial known inside =
    discover-is_some versions_for targets_for universe (suc (length universe)) initial [] [] known
      inside (enough universe)
