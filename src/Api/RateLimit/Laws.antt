-- ===== src/Api/RateLimit/Laws.antt =====
-- What the limiter guarantees of one client, scope and window.
use bardi.Prelude.{
  ℕ, suc, ◌-◌, ◌≤◌, ◌<◌, ◌≡◌, refl, ap, ◌∙◌, subst, Bool, true, false, not, ◌&&◌, Option, some,
  List, [], ◌∷◌, eqb, ltb, leb, none_or, Bool-cases, inl, inr, if◌then◌else◌, arith, eq_iff,
}
use bardi.Table.{Table, lookup, lookup-set}
use bardi.Api.RateLimit.{
  BucketKey, same_bucket, RateLimitState, prune, count_of, requests_of, pruned, count_request,
}

same_bucket_sym : (a b : BucketKey) → same_bucket a b ≡ same_bucket b a
same_bucket_sym a b = ground (
  arith,
  eq_iff a.client b.client,
  eq_iff b.client a.client,
  eq_iff a.scope b.scope,
  eq_iff b.scope a.scope,
)

same_bucket_eq : (a b : BucketKey) → same_bucket a b ≡ true → a ≡ b
same_bucket_eq a b h =
    let p : a.client ≡ b.client = (eq_iff a.client b.client).0 (ground arith) in
    let q : a.scope ≡ b.scope = (eq_iff a.scope b.scope).0 (ground arith) in
    let r : a.window_id ≡ b.window_id = ground arith in
    λ i. record { client = p i; scope = q i; window_id = r i }

same_bucket_cong : (a b c : BucketKey) → same_bucket a b ≡ true → same_bucket a c ≡ same_bucket b c
same_bucket_cong a b c h = ap (λ k. same_bucket k c) (same_bucket_eq a b h)

-- Pruning leaves the windows that are not before its bound.
lookup-prune :
    (least : ℕ) (t : Table BucketKey ℕ) (key : BucketKey)
    → ltb key.window_id least ≡ false
    → lookup same_bucket (prune least t) key ≡ lookup same_bucket t key
unfolding lookup prune
lookup-prune least [] key h = refl
lookup-prune least ((k, n) ∷ t) key h = ground (arith, lookup-prune least t key h)

requests_of-pruned :
    (s : RateLimitState) (w : ℕ) (key : BucketKey)
    → w ≤ key.window_id
    → requests_of (pruned s w) key ≡ requests_of s key
unfolding requests_of pruned
requests_of-pruned s w key early =
    elim (Bool-cases (none_or (λ last. not (eqb last w)) s.last_prune_window)) [
      | inr e ↦ rw e refl
      | inl e ↦ rw e (ap count_of (lookup-prune (w - 1) s.buckets key (ground arith)))
    ]

count_of_if :
    (b : Bool) (n : ℕ) (o : Option ℕ)
    → count_of (if b then some n else o) ≡ (if b then n else count_of o)
unfolding count_of
count_of_if true n o = refl
count_of_if false n o = refl

requests_of-count_request :
    (s : RateLimitState) (k key : BucketKey)
    → requests_of (count_request s k) key ≡ (
        if same_bucket k key
        then suc (requests_of (pruned s k.window_id) k)
        else requests_of (pruned s k.window_id) key)
unfolding requests_of count_request
requests_of-count_request s k key =
    let s' = pruned s k.window_id in
    ap count_of (
      lookup-set same_bucket same_bucket_sym same_bucket_cong s'.buckets k key
        (suc (requests_of s' k)))
    ∙ count_of_if (same_bucket k key) (suc (requests_of s' k)) (lookup same_bucket s'.buckets key)

-- How many of the requests are let through on the key, where `limit` are allowed.
unfoldable pub admitted : (limit : ℕ) → BucketKey → RateLimitState → (requests : List BucketKey) → ℕ
admitted limit key s [] = 0
admitted limit key s (k ∷ requests) =
    let s' = count_request s k in
    let rest = admitted limit key s' requests in
    if same_bucket k key && not (ltb limit (requests_of s' k)) then suc rest else rest

-- The clock does not run backwards from `window` on.
unfoldable pub InOrder : (window : ℕ) → List BucketKey → Type 0
InOrder window [] = Unit
InOrder window (k ∷ requests) = (window ≤ k.window_id) × InOrder k.window_id requests

-- How many requests of the key there are.
unfoldable pub arrived : BucketKey → (requests : List BucketKey) → ℕ
arrived key [] = 0
arrived key (k ∷ requests) =
    let rest = arrived key requests in if same_bucket k key then suc rest else rest

none_late :
    (limit : ℕ) (key : BucketKey) (s : RateLimitState) (w : ℕ) (requests : List BucketKey)
    → key.window_id < w
    → InOrder w requests
    → (admitted limit key s requests ≡ 0) × (arrived key requests ≡ 0)
unfolding admitted arrived InOrder
none_late limit key s w [] late order = (refl, refl)
none_late limit key s w (k ∷ requests) late (first, order) =
    let rest = none_late limit key (count_request s k) k.window_id requests (ground arith) order in
    let other : same_bucket k key ≡ false = ground arith in rw other rest

let_through :
    (limit counted rest wanted : ℕ)
    → rest ≡ (if leb wanted (limit - suc counted) then wanted else limit - suc counted)
    → (if not (ltb limit (suc counted)) then suc rest else rest)
      ≡ (if leb (suc wanted) (limit - counted) then suc wanted else limit - counted)
let_through limit counted rest wanted h = ground arith

-- While the windows do not run backwards, the key gets what fits in the limit.
pub admitted_exact :
    (limit : ℕ) (key : BucketKey) (s : RateLimitState) (w : ℕ) (requests : List BucketKey)
    → InOrder w requests
    → admitted limit key s requests ≡ (
        if leb (arrived key requests) (limit - requests_of s key)
        then arrived key requests
        else limit - requests_of s key)
unfolding admitted arrived InOrder
admitted_exact limit key s w [] order = ground arith
admitted_exact limit key s w (k ∷ requests) (first, order) =
    elim (Bool-cases (ltb key.window_id k.window_id)) [
      | inl late ↦
          let other : same_bucket k key ≡ false = ground arith in
          let (none_passed, none_arrived) =
            none_late limit key (count_request s k) k.window_id requests (ground arith) order in
          rw other (rw (none_passed, none_arrived) (ground arith))
      | inr early ↦
          let s' = count_request s k in
          let rest = admitted_exact limit key s' k.window_id requests order in
          let counted = requests_of-count_request s k key in
          let kept = requests_of-pruned s k.window_id key (ground arith) in
          let left : ℕ → ℕ = λ n.
            if leb (arrived key requests) (limit - n) then arrived key requests else limit - n in
          elim (Bool-cases (same_bucket k key)) [
            | inr e ↦
                let unchanged : requests_of s' key ≡ requests_of s key = (rw e at counted) ∙ kept in
                rw e (subst (λ n. admitted limit key s' requests ≡ left n) unchanged rest)
            | inl e ↦
                let same = same_bucket_eq k key e in
                let before : requests_of (pruned s k.window_id) k ≡ requests_of s key =
                  ap (requests_of (pruned s k.window_id)) same ∙ kept in
                let more : requests_of s' key ≡ suc (requests_of s key) =
                  (rw e at counted) ∙ ap suc before in
                let now : requests_of s' k ≡ suc (requests_of s key) =
                  ap (requests_of s') same ∙ more in
                let rest' = subst (λ n. admitted limit key s' requests ≡ left n) more rest in
                rw e (
                  rw now (
                    let_through limit (requests_of s key) (admitted limit key s' requests)
                      (arrived key requests) rest'))
          ]
    ]
