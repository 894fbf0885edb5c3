-- ===== src/Api/BodyLimit/Laws.antt =====
-- The read ends, and no body beyond the limit is handed on.
use bardi.Prelude.{
  ℕ, zero, suc, ◌+◌, ◌-◌, ◌≤◌, ◌<◌, ◌≡◌, refl, ◌∙◌, subst, inl, inr, Bool, true, Option, none, some,
  List, [], ◌∷◌, ◌++◌, length, leb, ltb, is_some, Bool-cases, some_inj, arith,
}
use bardi.Api.BodyLimit.{
  max_planning_body_bytes, Chunk, chunk, os_error, Body, bytes, too_big, unreadable, extend,
  bounded_read, read_body, cache_bounded_body, handed_on, response, response_to, consumed, handle,
}

length-append : {A : Type 0} (xs ys : List A) → length (xs ++ ys) ≡ length xs + length ys
length-append [] ys = ground arith
length-append (x ∷ xs) ys = ground (arith, length-append xs ys)

-- A chunk that is not empty leaves a longer body to go on with.
extend-is_some :
    {Stream : Type 0} (rounds : ℕ) (body : List ℕ) (c : Chunk Stream)
    (next : Stream → List ℕ → Option Body) (least : ℕ)
    → least ≤ rounds + length body
    → ((s : Stream) (longer : List ℕ)
        → least < rounds + length longer
        → is_some (next s longer) ≡ true)
    → is_some (extend body c next) ≡ true
unfolding extend
extend-is_some rounds body os_error next least enough goes_on = refl
extend-is_some rounds body (chunk [] s) next least enough goes_on = refl
extend-is_some rounds body (chunk (b ∷ bs) s) next least enough goes_on =
    let longer = length-append body (b ∷ bs) in
    goes_on s (body ++ (b ∷ bs)) (ground (arith, longer, enough))

module _ {Stream : Type 0} (read : Stream → ℕ → Chunk Stream) (limit : ℕ) where
  -- Each round that goes on adds a byte, so `limit + 2` rounds suffice whatever the stream gives.
  read_body-is_some :
      (rounds : ℕ) (stream : Stream) (body : List ℕ)
      → suc limit < rounds + length body
      → zero < rounds
      → is_some (read_body read limit rounds stream body) ≡ true
  unfolding read_body
  read_body-is_some zero stream body enough more = ground arith
  read_body-is_some (suc rounds) stream body enough more =
      elim (Bool-cases (leb (length body) limit)) [
        | inr e ↦ rw e refl
        | inl e ↦ rw e (
            extend-is_some rounds body (read stream (suc limit - length body))
              (read_body read limit rounds) (suc limit) (ground arith)
              (λ s longer more'. read_body-is_some rounds s longer more' (ground arith)))
      ]

handed_on_eq : {a b : List ℕ} → handed_on a ≡ handed_on b → a ≡ b
handed_on_eq h = cc

response-bounded :
    (limit : ℕ) (result : Option Body) (body : List ℕ)
    → response_to (bounded_read limit result) ≡ some (handed_on body)
    → length body ≤ limit
unfolding response_to response bounded_read
response-bounded limit none body h = cc
response-bounded limit (some too_big) body h = cc
response-bounded limit (some unreadable) body h = cc
response-bounded limit (some (bytes bs)) body h = elim (Bool-cases (ltb limit (length bs))) [
  | inl e ↦ let q = rw e at h in cc
  | inr e ↦
      let same : bs ≡ body = handed_on_eq (some_inj (rw e at h)) in
      subst (λ b. length b ≤ limit) same (ground arith)
]

not_refused : (body : List ℕ) → response_to (some too_big) ≡ some (handed_on body) → ⊥
unfolding response_to response
not_refused body h = cc

bounded_read-is_some :
    (limit : ℕ) (o : Option Body) → is_some (response_to (bounded_read limit o)) ≡ is_some o
unfolding bounded_read response_to
bounded_read-is_some limit none = refl
bounded_read-is_some limit (some b) = refl

module _ {Stream : Type 0} (read : Stream → ℕ → Chunk Stream) (limit declared : ℕ) where
  cached-is_some :
      (cached : Option (List ℕ)) (stream : Stream)
      → is_some
          (response_to (cache_bounded_body read limit (suc (suc limit)) declared cached stream))
        ≡ true
  unfolding cache_bounded_body response_to
  cached-is_some (some body) stream = elim (Bool-cases (ltb limit declared)) [
    | inl e ↦ rw e refl
    | inr e ↦ rw e refl
  ]
  cached-is_some none stream = elim (Bool-cases (ltb limit declared)) [
    | inl e ↦ rw e refl
    | inr e ↦
        let enough =
          read_body-is_some read limit (suc (suc limit)) stream [] (ground arith) (ground arith) in
        rw e
          (bounded_read-is_some limit (read_body read limit (suc (suc limit)) stream []) ∙ enough)
  ]

  cached-bounded :
      (rounds : ℕ) (cached : Option (List ℕ)) (stream : Stream) (body : List ℕ)
      → response_to (cache_bounded_body read limit rounds declared cached stream)
        ≡ some (handed_on body)
      → length body ≤ limit
  unfolding cache_bounded_body
  cached-bounded rounds (some b) stream body h = elim (Bool-cases (ltb limit declared)) [
    | inl e ↦ elim (not_refused body (rw e at h)) [ ]
    | inr e ↦ response-bounded limit (some (bytes b)) body (rw e at h)
  ]
  cached-bounded rounds none stream body h = elim (Bool-cases (ltb limit declared)) [
    | inl e ↦ elim (not_refused body (rw e at h)) [ ]
    | inr e ↦ response-bounded limit (read_body read limit rounds stream []) body (rw e at h)
  ]

-- A planning request is answered or handed on after at most as many reads as the limit has bytes and
-- two more, whatever the stream gives: short reads, an error, or more than was asked for.
pub handle-is_some :
    {Stream : Type 0} (read : Stream → ℕ → Chunk Stream) (read_started : Bool) (declared_length : ℕ)
    (cached : Option (List ℕ)) (stream : Stream)
    → is_some
        (handle read (suc (suc max_planning_body_bytes)) read_started declared_length cached stream)
      ≡ true
unfolding handle
handle-is_some read read_started declared_length cached stream =
    elim (Bool-cases (consumed read_started cached)) [
      | inl e ↦ rw e refl
      | inr e ↦ rw e (cached-is_some read max_planning_body_bytes declared_length cached stream)
    ]

-- A body that is handed on to the planner is no longer than the limit: neither the declared length,
-- nor a cached body, nor a stream brings a longer one through.
pub handle-bounded :
    {Stream : Type 0} (read : Stream → ℕ → Chunk Stream) (rounds : ℕ) (read_started : Bool)
    (declared_length : ℕ) (cached : Option (List ℕ)) (stream : Stream) (body : List ℕ)
    → handle read rounds read_started declared_length cached stream ≡ some (handed_on body)
    → length body ≤ max_planning_body_bytes
unfolding handle
handle-bounded read rounds read_started declared_length cached stream body h =
    elim (Bool-cases (consumed read_started cached)) [
      | inl e ↦ let q = rw e at h in cc
      | inr e ↦
          cached-bounded read max_planning_body_bytes declared_length rounds cached stream body
            (rw e at h)
    ]
