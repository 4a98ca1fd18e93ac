-- ===== src/App/BodyLimit.antt =====
-- `BodyLimitMiddleware` of src/llm_sandbox/app.py.
mod Tests
use llm_sandbox.Prelude.{
  ◌<◌, map, ◌++◌, ℕ, ◌+◌, ◌≤◌, ◌≡◌, refl, ap, arith, Bool, true, false, List, [], ◌∷◌, Option, none,
  some, Text, Bytes, codes, text_eq, length, if◌then◌else◌,
}
use llm_sandbox.Prelude.Int.{ℤ, pos, ltb_ℤ}
use llm_sandbox.Python.Decimal.{int_bytes, str_int}
use llm_sandbox.Base.Errors.{Exception, http, Outcome, ok, raised}

pub data Message : Type 0 where
  -- `http.request`, with its body part
  request : Bytes → Message
  -- any other message, such as a disconnect
  other : Message

-- `_detail`
unfoldable pub detail : ℤ → Text
detail limit =
    codes "request body exceeds " ++ (str_int limit ++ codes " bytes (SANDBOX_MAX_REQUEST_BYTES)")

abbrev value_or_zero : Option ℤ → ℤ
value_or_zero none = pos 0
value_or_zero (some n) = n

-- The loop over the headers: does a declared length exceed the limit?
unfoldable pub declares_more : ℤ → List (Bytes × Bytes) → Bool
declares_more limit [] = false
declares_more limit ((name, value) ∷ headers) =
    let rest = declares_more limit headers in
    if text_eq name (codes "content-length")
    then if ltb_ℤ limit (value_or_zero (int_bytes value)) then true else rest
    else rest

-- `limited_receive`: the count after the message, and what the application gets.
unfoldable pub limited_receive : ℤ → ℕ → Message → ℕ × Outcome Message
limited_receive limit received other = (received, ok other)
limited_receive limit received (request body) =
    if ltb_ℤ limit (pos (received + length body))
    then (received + length body, raised (http 413 (detail limit)))
    else (received + length body, ok (request body))

-- The application's calls of `receive`, one for each message.
pub receive_all : ℤ → ℕ → List Message → List (Outcome Message)
receive_all limit received [] = []
receive_all limit received (m ∷ ms) =
    (limited_receive limit received m).1 ∷ receive_all limit (limited_receive limit received m).0 ms

pub data Handled : Type 0 where
  -- answered with 413 before the application runs
  refused : Text → Handled
  -- the application runs, with these receives
  passed : List (Outcome Message) → Handled

-- `__call__`, for a scope that is `http` or is not.
unfoldable pub call : ℤ → Bool → List (Bytes × Bytes) → List Message → Handled
unfolding receive_all
call limit false headers messages = passed (map ok messages)
call limit true headers messages =
    if declares_more limit headers
    then refused (detail limit)
    else passed (receive_all limit 0 messages)

-- The bytes that reach the application.
abbrev pub delivered : List (Outcome Message) → ℕ
delivered [] = 0
delivered (ok (request body) ∷ rs) = length body + delivered rs
delivered (ok other ∷ rs) = delivered rs
delivered (raised e ∷ rs) = delivered rs

abbrev pub sent : List Message → ℕ
sent [] = 0
sent (request body ∷ ms) = length body + sent ms
sent (other ∷ ms) = sent ms

delivered-over :
    (limit received : ℕ) (ms : List Message)
    → limit < received
    → delivered (receive_all (pos limit) received ms) ≡ 0
unfolding receive_all limited_receive
delivered-over limit received [] h = refl
delivered-over limit received (other ∷ ms) h = delivered-over limit received ms h
delivered-over limit received (request body ∷ ms) h =
    ground (arith, delivered-over limit (received + length body) ms)

delivered-le :
    (limit received : ℕ) (ms : List Message)
    → received ≤ limit
    → received + delivered (receive_all (pos limit) received ms) ≤ limit
unfolding receive_all limited_receive
delivered-le limit received [] h = omega arith
delivered-le limit received (other ∷ ms) h = delivered-le limit received ms h
delivered-le limit received (request body ∷ ms) h = ground (
  arith,
  delivered-le limit (received + length body) ms,
  delivered-over limit (received + length body) ms,
)

-- However the client splits or declares its body, and even if the application goes on calling
-- `receive` after a 413, at most `limit` bytes of it ever reach the application.
pub receive_all-le :
    (limit : ℕ) (ms : List Message) → delivered (receive_all (pos limit) 0 ms) ≤ limit
receive_all-le limit ms = omega (arith, delivered-le limit 0 ms)

receive_all-map :
    (limit received : ℕ) (ms : List Message)
    → received + sent ms ≤ limit
    → receive_all (pos limit) received ms ≡ map ok ms
unfolding receive_all limited_receive
receive_all-map limit received [] h = refl
receive_all-map limit received (other ∷ ms) h =
    ap (◌∷◌ (ok other)) (receive_all-map limit received ms h)
receive_all-map limit received (request body ∷ ms) h =
    ground (arith, receive_all-map limit (received + length body) ms)

-- A body within the limit whose headers declare no more passes through untouched.
pub call_transparent :
    (limit : ℕ) (headers : List (Bytes × Bytes)) (ms : List Message)
    → declares_more (pos limit) headers ≡ false
    → sent ms ≤ limit
    → call (pos limit) true headers ms ≡ call (pos limit) false headers ms
unfolding call
call_transparent limit headers ms d h = rw d (ap passed (receive_all-map limit 0 ms (omega arith)))
