-- ===== src/Versions.antt =====
-- backend/planning/versions.py: the Procedure Version that applies at a date.
pub mod Laws
use bardi.Prelude.{
  String, Bool, true, false, not, ◌&&◌, ◌||◌, Option, none, some, List, [], ◌∷◌, any, all, filter,
  find, is_empty, str_eq, str_lt, one_of, sort, none_or, some_and, if◌then◌else◌,
}
use bardi.KeySet
use bardi.KeySet.{KeySet}
use bardi.Calendar.{Date, date_lt, date_le, date_eq}
use bardi.Catalog.{
  KnowledgeSnapshot, ProcedureVersionSnapshot, DateField, no_date, a_date, not_a_date,
}

pub data ProcedureVersionResolution : Type 0 where
  resolved :
      ProcedureVersionSnapshot
      → (upcoming : List ProcedureVersionSnapshot) (historical : Bool) → ProcedureVersionResolution
  unavailable :
      (reason_code : String) (upcoming : List ProcedureVersionSnapshot) → ProcedureVersionResolution
  configuration_defect :
      (diagnostic_codes : KeySet) (conflicting_version_ids : KeySet)
      (upcoming : List ProcedureVersionSnapshot)
      → ProcedureVersionResolution

-- The date of a field. Past the diagnostics, which refuse every `not_a_date`, the others are `None`.
abbrev pub date_of : DateField → Option Date
date_of (a_date d) = some d
date_of _ = none

abbrev is_not_a_date : DateField → Bool
is_not_a_date not_a_date = true
is_not_a_date _ = false

abbrev min_date : Date
min_date = record { year = 1; month = 1; day = 1 }

-- `version.effective_from or date.min`
abbrev from_or_min : Option Date → Date
from_or_min none = min_date
from_or_min (some d) = d

version_key_lt : ProcedureVersionSnapshot → ProcedureVersionSnapshot → Bool
version_key_lt left right =
    let a = from_or_min (date_of left.effective_from) in
    let b = from_or_min (date_of right.effective_from) in
    date_lt a b || (date_eq a b && str_lt left.semantic_id right.semantic_id)

abbrev pub is_published : ProcedureVersionSnapshot → Bool
is_published version = str_eq version.state "published"

starts_after : Date → ProcedureVersionSnapshot → Bool
starts_after evaluation_date version =
    some_and (λ d. date_lt evaluation_date d) (date_of version.effective_from)

upcoming_of : List ProcedureVersionSnapshot → Date → List ProcedureVersionSnapshot
unfolding version_key_lt starts_after
upcoming_of versions evaluation_date =
    sort version_key_lt
      (filter (λ version. is_published version && starts_after evaluation_date version) versions)

unfoldable pub contains : Date → ProcedureVersionSnapshot → Bool
contains value version =
    none_or (λ d. date_le d value) (date_of version.effective_from)
    && none_or (λ d. date_le value d) (date_of version.effective_to)

-- `start is None or end is None or start <= end`
abbrev starts_by : Option Date → Option Date → Bool
starts_by start end = none_or (λ a. none_or (λ b. date_le a b) end) start

unfoldable pub overlap : ProcedureVersionSnapshot → ProcedureVersionSnapshot → Bool
overlap left right =
    starts_by (date_of left.effective_from) (date_of right.effective_to)
    && starts_by (date_of right.effective_from) (date_of left.effective_to)

-- `if test: codes.add(code)`
abbrev add_if : Bool → String → KeySet → KeySet
add_if test code codes = if test then KeySet.add code codes else codes

is_reversed : DateField → DateField → Bool
is_reversed (a_date from) (a_date to) = date_lt to from
is_reversed _ _ = false

unfoldable pub version_diagnostics : ProcedureVersionSnapshot → KeySet
unfolding is_reversed
version_diagnostics version =
    add_if (is_reversed version.effective_from version.effective_to) "invalid_effective_interval" (
      add_if (is_not_a_date version.effective_to) "invalid_effective_to" (
        add_if (is_not_a_date version.effective_from) "invalid_effective_from" (
          add_if (not (str_eq version.rules_contract_version "v1")) "unsupported_rules_contract" (
            add_if (not (one_of version.state ("draft" ∷ "published" ∷ "withdrawn" ∷ [])))
              "invalid_lifecycle_state" []))))

all_diagnostics : List ProcedureVersionSnapshot → KeySet
all_diagnostics [] = []
all_diagnostics (v ∷ vs) = KeySet.union (version_diagnostics v) (all_diagnostics vs)

malformed_ids : List ProcedureVersionSnapshot → KeySet
malformed_ids [] = []
malformed_ids (v ∷ vs) =
    if is_empty (version_diagnostics v)
    then malformed_ids vs
    else KeySet.add v.semantic_id (malformed_ids vs)

-- The two nested loops over the published versions.
conflicts_with : ProcedureVersionSnapshot → List ProcedureVersionSnapshot → KeySet → KeySet
conflicts_with left [] ids = ids
conflicts_with left (right ∷ more) ids = conflicts_with left more (
    if overlap left right
    then KeySet.add left.semantic_id (KeySet.add right.semantic_id ids)
    else ids)

unfoldable pub conflicting : List ProcedureVersionSnapshot → KeySet
unfolding conflicts_with
conflicting [] = []
conflicting (left ∷ more) = conflicts_with left more (conflicting more)

is_known : KnowledgeSnapshot → String → List ProcedureVersionSnapshot → Bool
is_known snapshot procedure versions =
    not (is_empty versions)
    || any (λ s. any (λ c. str_eq c.procedure_semantic_id procedure) s.candidates) snapshot.services

resolve_historical :
    Date
    → List ProcedureVersionSnapshot
    → Option ProcedureVersionSnapshot
    → ProcedureVersionResolution
unfolding starts_after
resolve_historical evaluation_date upcoming none = unavailable "unknown_historical_version" upcoming
resolve_historical evaluation_date upcoming (some selected) =
    if str_eq selected.state "draft"
    then unavailable "draft_historical_version" upcoming
    else if starts_after evaluation_date selected
    then unavailable "historical_version_not_yet_effective" upcoming
    else resolved selected upcoming (
        str_eq selected.state "withdrawn"
        || some_and (λ d. date_lt d evaluation_date) (date_of selected.effective_to))

-- `len(applicable) == 1` is the clause on the list.
unfoldable pub resolve_current :
    Date
    → (upcoming published applicable : List ProcedureVersionSnapshot) → ProcedureVersionResolution
unfolding starts_after
resolve_current evaluation_date upcoming published (version ∷ []) = resolved version upcoming false
resolve_current evaluation_date upcoming published _ =
    if is_empty published
    then unavailable "no_published_version" upcoming
    else if all (starts_after evaluation_date) published
    then unavailable "not_yet_effective" upcoming
    else unavailable "no_applicable_version" upcoming

abbrev resolve_selected :
    Date
    → (versions published upcoming : List ProcedureVersionSnapshot) → Option String
    → ProcedureVersionResolution
resolve_selected evaluation_date versions published upcoming none =
    resolve_current evaluation_date upcoming published (filter (contains evaluation_date) published)
resolve_selected evaluation_date versions published upcoming (some historical_version_id) =
    resolve_historical evaluation_date upcoming
      (find (λ v. str_eq v.semantic_id historical_version_id) versions)

resolve_known :
    Date
    → Option String
    → (versions published upcoming : List ProcedureVersionSnapshot) → ProcedureVersionResolution
unfolding all_diagnostics malformed_ids resolve_historical
resolve_known evaluation_date historical_version_id versions published upcoming =
    let diagnostics = all_diagnostics versions in
    let conflicts = conflicting published in
    if not (is_empty diagnostics)
    then configuration_defect diagnostics (malformed_ids versions) upcoming
    else if not (is_empty conflicts)
    then configuration_defect ("overlapping_published_intervals" ∷ []) conflicts upcoming
    else resolve_selected evaluation_date versions published upcoming historical_version_id

-- The versions of a Procedure, by semantic ID.
unfoldable pub versions_of : KnowledgeSnapshot → String → List ProcedureVersionSnapshot
versions_of snapshot procedure =
    sort (λ a b. str_lt a.semantic_id b.semantic_id)
      (filter (λ v. str_eq v.procedure_semantic_id procedure) snapshot.procedure_versions)

unfoldable pub resolve_procedure_version :
    KnowledgeSnapshot → String → Date → Option String → ProcedureVersionResolution
unfolding is_known resolve_known upcoming_of
resolve_procedure_version snapshot procedure evaluation_date historical_version_id =
    let versions = versions_of snapshot procedure in
    if not (is_known snapshot procedure versions)
    then unavailable "unknown_procedure" []
    else resolve_known evaluation_date historical_version_id versions (filter is_published versions)
        (upcoming_of versions evaluation_date)
