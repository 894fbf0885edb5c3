-- ===== src/Api/RateLimit/Traffic.antt =====
-- The limiter against a run of requests: how many of one bucket the middleware hands on.
use bardi.Prelude.{◌*◌, ◌/◌}
use bardi.Prelude.{
  ℕ, suc, ◌-◌, ◌≡◌, refl, ◌∙◌, String, Bool, true, false, not, ◌&&◌, Option, List, [], ◌∷◌, ltb,
  leb, Bool-cases, inl, inr, if◌then◌else◌,
}
use bardi.Api.RateLimit.{
  BucketKey, same_bucket, RateLimitSettings, RateLimitState, Clock, positive_int, default_limit,
  default_window_seconds, scope, window_of, requests_of, count_request, evaluate_rate_limit,
  Handled, rate_limited, handed_on, handle,
}
use bardi.Api.RateLimit.Laws.{InOrder, admitted, arrived, admitted_exact}

-- A request as it reaches the middleware.
pub record Arrival : Type 0 where
  pub is_public : Bool
  pub client : String
  pub path : Option String
  pub now : Clock

abbrev is_handed_on : Handled → Bool
is_handed_on (rate_limited seconds) = false
is_handed_on handed_on = true

module _ (settings : RateLimitSettings) where
  -- The bucket that the request belongs to: its client, its scope, and the number of the whole
  -- windows that have passed by then.
  abbrev pub bucket_of : Arrival → BucketKey
  bucket_of a = record {
    client = a.client;
    scope = scope a.path;
    window_id =
        a.now.ticks
        / (positive_int settings.window_seconds default_window_seconds * a.now.per_second);
  }

  abbrev handled : RateLimitState → Arrival → Handled × RateLimitState
  handled s a = handle settings s a.is_public a.client a.path a.now

  -- The buckets of the public requests, in the order of their arrival.
  unfoldable pub buckets : List Arrival → List BucketKey
  buckets [] = []
  buckets (a ∷ arrivals) =
      let rest = buckets arrivals in if a.is_public then bucket_of a ∷ rest else rest

  -- How many public requests of the bucket the middleware hands on, each in the state that the one
  -- before it left.
  unfoldable pub passed : BucketKey → RateLimitState → List Arrival → ℕ
  passed key s [] = 0
  passed key s (a ∷ arrivals) =
      let rest = passed key (handled s a).1 arrivals in
      if a.is_public && (same_bucket (bucket_of a) key && is_handed_on (handled s a).0)
      then suc rest
      else rest

  handled-private : (s : RateLimitState) (a : Arrival) → a.is_public ≡ false → (handled s a).1 ≡ s
  unfolding handle
  handled-private s a private = rw private refl

  handled-public :
      (s : RateLimitState) (a : Arrival)
      → settings.enabled ≡ true
      → a.is_public ≡ true
      → ((handled s a).1 ≡ count_request s (bucket_of a))
        × (is_handed_on (handled s a).0
            ≡ not (
                ltb
                  (positive_int settings.requests default_limit)
                  (requests_of (count_request s (bucket_of a)) (bucket_of a))))
  unfolding handle evaluate_rate_limit window_of
  handled-public s a enabled public =
      let limit = positive_int settings.requests default_limit in
      let counted = requests_of (count_request s (bucket_of a)) (bucket_of a) in
      elim (Bool-cases (ltb limit counted)) [
        | inl e ↦ rw (enabled, public, e) (refl, refl)
        | inr e ↦ rw (enabled, public, e) (refl, refl)
      ]

  passed-admitted :
      (key : BucketKey) (s : RateLimitState) (arrivals : List Arrival)
      → settings.enabled ≡ true
      → passed key s arrivals
        ≡ admitted (positive_int settings.requests default_limit) key s (buckets arrivals)
  unfolding passed admitted buckets
  passed-admitted key s [] enabled = refl
  passed-admitted key s (a ∷ arrivals) enabled = elim (Bool-cases a.is_public) [
    | inl public ↦
        let (state, on) = handled-public s a enabled public in
        let rest = passed-admitted key (count_request s (bucket_of a)) arrivals enabled in
        rw (state, on) (rw public (rw rest refl))
    | inr private ↦
        rw (handled-private s a private) (rw private (passed-admitted key s arrivals enabled))
  ]

  -- Where limiting is enabled and the clock does not run backwards, the middleware hands on, of the
  -- public requests of a client, scope and window, exactly as many as fit in what is left of the
  -- configured limit: all of them, or as many as are left, whatever arrives between them. Requests
  -- that are not public do not count.
  pub passed_exact :
      (key : BucketKey) (s : RateLimitState) (arrivals : List Arrival)
      → settings.enabled ≡ true
      → InOrder 0 (buckets arrivals)
      → let left = positive_int settings.requests default_limit - requests_of s key in
        let wanted = arrived key (buckets arrivals) in
        passed key s arrivals ≡ (if leb wanted left then wanted else left)
  passed_exact key s arrivals enabled order =
      passed-admitted key s arrivals enabled
      ∙ admitted_exact (positive_int settings.requests default_limit) key s 0 (buckets arrivals)
          order
