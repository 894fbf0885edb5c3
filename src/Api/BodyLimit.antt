-- ===== src/Api/BodyLimit.antt =====
-- backend/api/body_limit.py: the bounded read of a planning body.
pub mod Laws
use bardi.Prelude.{
  ℕ, zero, suc, ◌+◌, ◌-◌, String, Bool, true, false, ◌&&◌, not, Option, none, some, List, [], ◌∷◌,
  ◌++◌, length, is_empty, leb, ltb, str_eq, if◌then◌else◌,
}

-- MAX_PLANNING_BODY_BYTES
abbrev pub max_planning_body_bytes : ℕ
max_planning_body_bytes = 524288

-- What a read of the stream gives; `os_error` is the OSError that it raises.
pub data Chunk (Stream : Type 0) : Type 0 where
  chunk : List ℕ → Stream → Chunk Stream
  os_error : Chunk Stream

-- What is known of the body: its bytes, RequestDataTooBig, or OSError.
pub data Body : Type 0 where
  bytes : List ℕ → Body
  too_big : Body
  unreadable : Body

-- What one read does to the body: the end of the stream ends the loop.
extend :
    {Stream : Type 0}
    → (body : List ℕ) → Chunk Stream
    → (Stream → List ℕ → Option Body)
    → Option Body
extend body os_error next = some unreadable
extend body (chunk [] stream) next = some (bytes body)
extend body (chunk (b ∷ bs) stream) next = next stream (body ++ (b ∷ bs))

-- `if len(body) > MAX_PLANNING_BODY_BYTES: raise RequestDataTooBig`
abbrev bounded : (limit : ℕ) → Body → Body
bounded limit (bytes body) = if ltb limit (length body) then too_big else bytes body
bounded limit result = result

bounded_read : (limit : ℕ) → Option Body → Option Body
bounded_read limit none = none
bounded_read limit (some result) = some (bounded limit result)

-- The stream of the request is the server's.
module _ {Stream : Type 0} (read : Stream → ℕ → Chunk Stream) (limit : ℕ) where
  -- `while len(body) <= limit`, at most `rounds` times; `none` where they do not suffice.
  unfoldable pub read_body : (rounds : ℕ) → Stream → (body : List ℕ) → Option Body
  unfolding extend
  read_body zero stream body = none
  read_body (suc rounds) stream body =
      let rest = extend body (read stream (suc limit - length body)) (read_body rounds) in
      if leb (length body) limit then rest else some (bytes body)

  -- `_cache_bounded_body`, where `cached` is the body that the request has already.
  unfoldable pub cache_bounded_body :
      (rounds : ℕ) → (declared_length : ℕ) → (cached : Option (List ℕ)) → Stream → Option Body
  unfolding read_body bounded_read
  cache_bounded_body rounds declared_length (some body) stream =
      if ltb limit declared_length then some too_big else some (bounded limit (bytes body))
  cache_bounded_body rounds declared_length none stream =
      if ltb limit declared_length
      then some too_big
      else bounded_read limit (read_body rounds stream [])

-- The response of the middleware to a planning request.
pub data BodyResponse : Type 0 where
  handed_on : (body : List ℕ) → BodyResponse
  refused : (code : String) → (status : ℕ) → BodyResponse

response : Body → BodyResponse
response (bytes body) = handed_on body
response too_big = refused "body_too_large" 413
response unreadable = refused "invalid_body" 400

response_to : Option Body → Option BodyResponse
unfolding response
response_to none = none
response_to (some body) = some (response body)

-- A stream that was consumed without a cached body cannot be checked.
unfoldable pub consumed : (read_started : Bool) → Option (List ℕ) → Bool
consumed read_started none = read_started
consumed read_started (some body) = false

module _ {Stream : Type 0} (read : Stream → ℕ → Chunk Stream) where
  -- `PlanningBodyLimitMiddleware` at a POST of the planning route.
  unfoldable pub handle :
      (rounds : ℕ)
      → (read_started : Bool) → (declared_length : ℕ) → (cached : Option (List ℕ)) → Stream
      → Option BodyResponse
  unfolding cache_bounded_body consumed response_to
  handle rounds read_started declared_length cached stream =
      if consumed read_started cached
      then some (refused "invalid_body" 400)
      else response_to
          (cache_bounded_body read max_planning_body_bytes rounds declared_length cached stream)
