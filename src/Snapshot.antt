-- ===== src/Snapshot.antt =====
-- backend/knowledge/snapshot_policy.py: the integrity policy that captured catalog rows pass on
-- their way into a snapshot: diagnostics, keyed tables, and the loop over the rows of one stage.
pub mod Evidence
pub mod Rows
pub mod Claims
pub mod Core
pub mod Features
pub mod Stages
pub mod Reports
use bardi.Prelude.{
  ℕ, String, Bool, true, false, Option, none, some, List, [], ◌∷◌, ◌++◌, eqb, str_eq, str_lt, sort,
  is_empty, if◌then◌else◌,
}
unfoldable pub use bardi.Table.{Table, lookup, set}
use bardi.Facts.{Object, Entries, PathSegment, ValidationDiagnostic}
use bardi.Rules.Text.{DateText}

-- What the policy calls of Python's library: the texts of dates, and `str.strip`.
pub record Library : Type 0 where
  pub dates : DateText
  pub strip : String → String

-- `not text.strip()`
abbrev pub is_blank : Library → String → Bool
is_blank library text = str_eq (library.strip text) ""

pub record StoredRuleLoadDiagnostic : Type 0 where
  pub owner_id : String
  pub diagnostics : List ValidationDiagnostic

-- `_failure`, and `fail` of validate_core.
abbrev pub failure : String → String → List PathSegment → StoredRuleLoadDiagnostic
failure owner code path = record {
  owner_id = owner;
  diagnostics = record { code = code; path = path } ∷ [];
}

-- What a stage returns, or the KnowledgeSnapshotLoadError that it raises.
pub data Loaded (A : Type 0) : Type 0 where
  loaded : A → Loaded A
  load_error : List StoredRuleLoadDiagnostic → Loaded A

-- KnowledgeSnapshotLoadError: the diagnostics in ascending order of their owners.
unfoldable pub knowledge_snapshot_load_error :
    {A : Type 0} → List StoredRuleLoadDiagnostic → Loaded A
knowledge_snapshot_load_error diagnostics =
    load_error (sort (λ a b. str_lt a.owner_id b.owner_id) diagnostics)

-- `if failures: raise ...`
unfoldable pub raise_failures : {A : Type 0} → List StoredRuleLoadDiagnostic → A → Loaded A
unfolding knowledge_snapshot_load_error
raise_failures failures result =
    if is_empty failures then loaded result else knowledge_snapshot_load_error failures

-- `row == {}` at a stored rule that may be omitted.
abbrev pub is_omitted : Object → Bool
is_omitted (Object.dict Entries.end) = true
is_omitted raw = false

-- What one row of a stage leaves: the entry that it sets, and the failures that it appends.
pub record Outcome (K V : Type 0) : Type 0 where
  pub entry : Option (K × V)
  pub reported : List StoredRuleLoadDiagnostic

module _ {K V : Type 0} where
  abbrev pub reports : StoredRuleLoadDiagnostic → Outcome K V
  reports d = record { entry = none; reported = d ∷ [] }

  abbrev pub sets : K → V → Outcome K V
  sets k v = record { entry = some (k, v); reported = [] }

-- The variables of a stage: `failures`, and the table that it fills.
pub record Stage (K V : Type 0) : Type 0 where
  pub failures : List StoredRuleLoadDiagnostic
  pub rules : Table K V

module _ {K V : Type 0} (same : K → K → Bool) where
  set_entry : Table K V → Option (K × V) → Table K V
  unfolding set
  set_entry t none = t
  set_entry t (some (k, v)) = set same t k v

  -- `for row in rows`
  unfoldable pub each_row : {R : Type 0} → (R → Outcome K V) → Stage K V → List R → Stage K V
  unfolding set_entry
  each_row outcome s [] = s
  each_row outcome s (row ∷ rows) =
      let o = outcome row in
      each_row outcome
        (record { failures = s.failures ++ o.reported; rules = set_entry s.rules o.entry }) rows
