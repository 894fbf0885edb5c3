-- ===== src/Scope.antt =====
-- backend/knowledge/planning_scope.py: the discovery of the Procedures that a Service can reach.
pub mod Laws
pub mod Closed
use bardi.Prelude.{
  ℕ, zero, suc, Bool, true, false, not, ◌||◌, Option, none, some, List, [], ◌∷◌, ◌++◌, any, length,
  eqb, is_empty, if◌then◌else◌,
}

-- Sets of identifiers, of which only the members are asked.
abbrev pub IdSet : Type 0
IdSet = List ℕ

unfoldable pub has : IdSet → ℕ → Bool
has [] x = false
has (y ∷ ys) x = eqb y x || has ys x

-- `xs - ys`
unfoldable pub without : IdSet → IdSet → IdSet
unfolding has
without [] ys = []
without (x ∷ xs) ys = if has ys x then without xs ys else x ∷ without xs ys

pub record ProcedureGraph : Type 0 where
  pub procedure_ids : IdSet
  pub version_ids : IdSet

-- `versions_for` and `targets_for` are the queries that the caller hands in.
module _ (versions_for targets_for : IdSet → IdSet) where
  -- `while frontier`, at most `rounds` times; `none` where they do not suffice.
  unfoldable pub discover :
      (rounds : ℕ) → (frontier visited version_ids : IdSet) → Option ProcedureGraph
  unfolding without
  discover zero frontier visited version_ids = none
  discover (suc rounds) [] visited version_ids =
      some (record { procedure_ids = visited; version_ids = version_ids })
  discover (suc rounds) (x ∷ frontier) visited version_ids =
      let current = without (x ∷ frontier) visited in
      let visited' = visited ++ current in
      let current_version_ids = versions_for current in
      let rest =
        discover rounds (without (targets_for current_version_ids) visited') visited'
          (version_ids ++ current_version_ids) in
      if is_empty current
      then some (record { procedure_ids = visited; version_ids = version_ids })
      else rest

  unfoldable pub discover_procedure_graph : (rounds : ℕ) → (initial : IdSet) → Option ProcedureGraph
  unfolding discover
  discover_procedure_graph rounds initial = discover rounds initial [] []
