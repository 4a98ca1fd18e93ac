-- ===== src/App/BodyLimit/Tests.antt =====
-- The body limit at concrete requests.
use llm_sandbox.Prelude.{◌≤◌, ◌≡◌, refl, arith, List, [], ◌∷◌, codes, true, false, Bytes}
use llm_sandbox.Prelude.Int.{pos}
use llm_sandbox.App.BodyLimit.{
  Message, request, other, declares_more, receive_all, delivered, call, receive_all-le,
  call_transparent,
}

abbrev parts : List Message
parts = request (codes "abc") ∷ request (codes "de") ∷ other ∷ []

abbrev declared : List (Bytes × Bytes)
declared = (codes "host", codes "x") ∷ (codes "content-length", codes "5") ∷ []

receive_all-le_example : delivered (receive_all (pos 4) 0 parts) ≤ 4
receive_all-le_example = receive_all-le 4 parts

call_transparent_example : call (pos 5) true declared parts ≡ call (pos 5) false declared parts
unfolding declares_more llm_sandbox.Python.Decimal.int_bytes
call_transparent_example = call_transparent 5 declared parts refl (omega arith)
