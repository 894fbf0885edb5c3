-- ===== src/Api/RateLimit.antt =====
-- backend/api/rate_limit.py: the fixed window that bounds the requests of one client.
pub mod Laws
pub mod Traffic
use bardi.Prelude.{
  ℕ, zero, suc, ◌+◌, ◌-◌, ◌*◌, ◌/◌, ◌%◌, String, Bool, true, false, not, ◌&&◌, Option, none, some,
  List, [], ◌∷◌, ℤ, pos, eqb, ltb, leb, str_eq, none_or, if◌then◌else◌,
}
use bardi.Facts.{FactValue, Object}
use bardi.Table.{Table, lookup, set}

-- `_DEFAULT_LIMIT` and `_DEFAULT_WINDOW_SECONDS`
abbrev pub default_limit : ℕ
default_limit = 60

abbrev pub default_window_seconds : ℕ
default_window_seconds = 60

unfoldable pub positive_int : Object → (default : ℕ) → ℕ
positive_int (Object.value (FactValue.int (pos n))) default = if ltb 0 n then n else default
positive_int _ default = default

-- The scope of a path without its trailing slashes; `none` is a path that is no text.
unfoldable pub scope : (normalized : Option String) → String
scope none = "public"
scope (some path) =
    if str_eq path "/v1/planning"
    then "planning"
    else if str_eq path "/v1/services"
    then "services"
    else "public"

-- `(client, scope, window_id)`
pub record BucketKey : Type 0 where
  pub client : String
  pub scope : String
  pub window_id : ℕ

abbrev pub same_bucket : BucketKey → BucketKey → Bool
same_bucket a b =
    str_eq a.client b.client && (str_eq a.scope b.scope && eqb a.window_id b.window_id)

pub record RateLimitState : Type 0 where
  pub buckets : Table BucketKey ℕ
  pub last_prune_window : Option ℕ

-- reset_rate_limit_state
abbrev pub reset_state : RateLimitState
reset_state = record { buckets = []; last_prune_window = none }

pub record RateLimitDecision : Type 0 where
  pub limited : Bool
  pub retry_after_seconds : ℕ

-- The settings, as they are read.
pub record RateLimitSettings : Type 0 where
  pub enabled : Bool
  pub requests : Object
  pub window_seconds : Object

-- The clock shows `ticks` ticks, of which a second has `per_second`: a float of seconds is such a
-- fraction, and its arithmetic is taken as exact.
pub record Clock : Type 0 where
  pub ticks : ℕ
  pub per_second : ℕ

abbrev pub window_ticks : Clock → (window_seconds : ℕ) → ℕ
window_ticks now window_seconds = window_seconds * now.per_second

-- `int(current // window_seconds)`
unfoldable pub window_of : Clock → (window_seconds : ℕ) → ℕ
window_of now window_seconds = now.ticks / window_ticks now window_seconds

-- `max(1, math.ceil(window_seconds - (current % window_seconds)))`
unfoldable pub retry_after : Clock → (window_seconds : ℕ) → ℕ
retry_after now window_seconds =
    let left = window_ticks now window_seconds - now.ticks % window_ticks now window_seconds in
    let seconds = (left + (now.per_second - 1)) / now.per_second in
    if ltb seconds 1 then 1 else seconds

-- The entries whose window is not before `stale_before`; `window_id - 1` of the source may be -1,
-- before which no window is.
unfoldable pub prune : (stale_before : ℕ) → Table BucketKey ℕ → Table BucketKey ℕ
prune stale_before [] = []
prune stale_before ((key, count) ∷ buckets) =
    if ltb key.window_id stale_before
    then prune stale_before buckets
    else (key, count) ∷ prune stale_before buckets

-- `_buckets.get(key, 0)`
count_of : Option ℕ → ℕ
count_of none = 0
count_of (some n) = n

unfoldable pub requests_of : RateLimitState → BucketKey → ℕ
unfolding count_of lookup
requests_of s key = count_of (lookup same_bucket s.buckets key)

unfoldable pub pruned : RateLimitState → ℕ → RateLimitState
unfolding prune
pruned s window_id =
    if none_or (λ last. not (eqb last window_id)) s.last_prune_window
    then record { buckets = prune (window_id - 1) s.buckets; last_prune_window = some window_id }
    else s

-- The section under the lock: the state after it.
unfoldable pub count_request : RateLimitState → BucketKey → RateLimitState
unfolding pruned requests_of set
count_request s key =
    let s' = pruned s key.window_id in
    record s' { buckets = set same_bucket s'.buckets key (suc (requests_of s' key)) }

pub record Evaluated : Type 0 where
  pub state : RateLimitState
  pub decision : RateLimitDecision

-- `client` is the identifier that the source computes from the request and its secret.
unfoldable pub evaluate_rate_limit :
    RateLimitSettings
    → RateLimitState
    → (client : String) → (path : Option String) → Clock
    → Evaluated
unfolding count_request positive_int scope window_of retry_after
evaluate_rate_limit settings s client path now =
    let limit = positive_int settings.requests default_limit in
    let window_seconds = positive_int settings.window_seconds default_window_seconds in
    let key : BucketKey = record {
      client = client;
      scope = scope path;
      window_id = window_of now window_seconds;
    } in
    let s' = count_request s key in
    if settings.enabled
    then record {
      state = s';
      decision = record {
        limited = ltb limit (requests_of s' key);
        retry_after_seconds = retry_after now window_seconds;
      };
    }
    else record { state = s; decision = record { limited = false; retry_after_seconds = 0 } }

-- The middleware: a public request that is limited is answered at once, and every other one is
-- handed on.
pub data Handled : Type 0 where
  rate_limited : (retry_after_seconds : ℕ) → Handled
  handed_on : Handled

unfoldable pub handle :
    RateLimitSettings
    → RateLimitState
    → (is_public : Bool) → (client : String) → (path : Option String) → Clock
    → Handled × RateLimitState
unfolding evaluate_rate_limit
handle settings s is_public client path now =
    let e = evaluate_rate_limit settings s client path now in
    if is_public
    then (if e.decision.limited
        then (rate_limited e.decision.retry_after_seconds, e.state)
        else (handed_on, e.state))
    else (handed_on, s)
