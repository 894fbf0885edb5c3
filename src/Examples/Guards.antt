-- ===== src/Examples/Guards.antt =====
-- The discovery of Procedures, the request limit and the body limit on small inputs.
use bardi.Prelude.{
  ℕ, suc, ◌≤◌, ◌≡◌, refl, true, false, none, some, List, [], ◌∷◌, length, is_some, if◌then◌else◌,
  arith,
}
use bardi.Prelude.{pos}
use bardi.Facts.{FactValue, Object}
use bardi.Api.Privacy.{planning_observability_metadata}
use bardi.Api.Privacy.Laws.{IsCoarse, planning_observability_metadata-IsCoarse}
use bardi.Scope.{IdSet, has, without, ProcedureGraph, discover_procedure_graph}
use bardi.Scope.Laws.{Within, discover_procedure_graph-is_some}
use bardi.Scope.Closed.{Monotone, IsClosed, discover_procedure_graph-IsClosed}
use bardi.Prelude.{◌-◌, leb}
use bardi.Api.RateLimit.{
  BucketKey, RateLimitSettings, reset_state, requests_of, positive_int, window_of, default_limit,
}
use bardi.Api.RateLimit as RateLimit
use bardi.Api.RateLimit.Laws.{InOrder, arrived}
use bardi.Api.RateLimit.Traffic.{Arrival, buckets, passed, passed_exact}
use bardi.Api.BodyLimit.{max_planning_body_bytes, Chunk, chunk, handed_on, handle}
use bardi.Api.BodyLimit.Laws.{handle-is_some, handle-bounded}

-- Procedure 1 has version 11, which depends on Procedure 2; its version 12 depends on Procedure 1.
abbrev versions_for : IdSet → IdSet
versions_for procedures =
    if has procedures 1
    then (if has procedures 2 then 11 ∷ 12 ∷ [] else 11 ∷ [])
    else if has procedures 2
    then 12 ∷ []
    else []

abbrev targets_for : IdSet → IdSet
targets_for versions =
    if has versions 11
    then (if has versions 12 then 2 ∷ 1 ∷ [] else 2 ∷ [])
    else if has versions 12
    then 1 ∷ []
    else []

abbrev cycle : ProcedureGraph
cycle = record { procedure_ids = 1 ∷ 2 ∷ []; version_ids = 11 ∷ 12 ∷ [] }

discovered : discover_procedure_graph versions_for targets_for 3 (1 ∷ []) ≡ some cycle
unfolding discover_procedure_graph has without
discovered = refl

targets_known : (versions : IdSet) → Within (targets_for versions) (1 ∷ 2 ∷ [])
unfolding has
targets_known versions x m = ground arith

initial_known : Within (1 ∷ []) (1 ∷ 2 ∷ [])
unfolding has
initial_known x m = ground arith

discover_procedure_graph-is_some_example :
    is_some (discover_procedure_graph versions_for targets_for 3 (1 ∷ [])) ≡ true
discover_procedure_graph-is_some_example =
    discover_procedure_graph-is_some versions_for targets_for (1 ∷ 2 ∷ []) (1 ∷ []) targets_known
      initial_known

more_versions : Monotone versions_for
unfolding has
more_versions xs ys inside x m =
    let one = inside 1 in let two = inside 2 in ground (arith, one, two)

more_targets : Monotone targets_for
unfolding has
more_targets xs ys inside x m =
    let one = inside 11 in let two = inside 12 in ground (arith, one, two)

discover_procedure_graph-IsClosed_example : IsClosed versions_for targets_for (1 ∷ []) cycle
discover_procedure_graph-IsClosed_example =
    discover_procedure_graph-IsClosed versions_for targets_for 3 (1 ∷ []) cycle more_versions
      more_targets discovered

-- Two requests a minute.
abbrev settings : RateLimitSettings
settings = record {
  enabled = true;
  requests = Object.value (FactValue.int (pos 2));
  window_seconds = Object.value (FactValue.int (pos 60));
}

abbrev at : ℕ → Arrival
at second = record {
  is_public = true;
  client = "a";
  path = some "/v1/planning";
  now = record { ticks = second; per_second = 1 };
}

-- Four requests of one bucket, between them one of another client and one that is not public, and
-- at the end one of the next window.
abbrev arrivals : List Arrival
arrivals =
    at 300
    ∷ record (at 301) { client = "b" }
    ∷ at 302
    ∷ record (at 303) { is_public = false }
    ∷ at 310
    ∷ at 359
    ∷ at 360
    ∷ []

abbrev burst : BucketKey
burst = record { client = "a"; scope = "planning"; window_id = 5 }

arrivals-InOrder : InOrder 0 (buckets settings arrivals)
unfolding InOrder buckets positive_int window_of
arrivals-InOrder = (
  ground arith,
  (ground arith, (ground arith, (ground arith, (ground arith, (ground arith, tt))))),
)

passed_exact_example :
    let left = positive_int settings.requests default_limit - requests_of reset_state burst in
    let wanted = arrived burst (buckets settings arrivals) in
    passed settings burst reset_state arrivals ≡ (if leb wanted left then wanted else left)
passed_exact_example = passed_exact settings burst reset_state arrivals refl arrivals-InOrder

two_pass : passed settings burst reset_state arrivals ≡ 2
unfolding passed RateLimit.handle
two_pass = refl

-- A stream that gives its chunks as they are.
abbrev next_chunk : List (List ℕ) → ℕ → Chunk (List (List ℕ))
next_chunk [] n = chunk [] []
next_chunk (bs ∷ stream) n = chunk bs stream

handle-is_some_example :
    is_some (
      handle next_chunk
        (suc (suc max_planning_body_bytes))
        false
        0
        none
        ((1 ∷ []) ∷ (2 ∷ 3 ∷ []) ∷ []))
    ≡ true
handle-is_some_example = handle-is_some next_chunk false 0 none ((1 ∷ []) ∷ (2 ∷ 3 ∷ []) ∷ [])

short_reads :
    handle next_chunk 4 false 0 none ((1 ∷ []) ∷ (2 ∷ 3 ∷ []) ∷ [])
    ≡ some (handed_on (1 ∷ 2 ∷ 3 ∷ []))
unfolding handle
short_reads = refl

handle-bounded_example : length {A = ℕ} (1 ∷ 2 ∷ 3 ∷ []) ≤ max_planning_body_bytes
handle-bounded_example =
    handle-bounded next_chunk 4 false 0 none ((1 ∷ []) ∷ (2 ∷ 3 ∷ []) ∷ []) (1 ∷ 2 ∷ 3 ∷ [])
      short_reads

planning_observability_metadata-IsCoarse_example : IsCoarse (
    planning_observability_metadata
      (λ s. s)
      (Object.value (FactValue.str "birth_date=1990"))
      (Object.value (FactValue.int (pos 700)))
      Object.opaque)
planning_observability_metadata-IsCoarse_example =
    planning_observability_metadata-IsCoarse (λ s. s)
      (Object.value (FactValue.str "birth_date=1990")) (Object.value (FactValue.int (pos 700)))
      Object.opaque
