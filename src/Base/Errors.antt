-- ===== src/Base/Errors.antt =====
-- The exceptions of src/llm_sandbox/providers/base.py and of the HTTP layer, and calls that can
-- raise one while they change the world outside: the backend, the file system, the clock.
use llm_sandbox.Prelude.{inr, inl, ◌⊎◌, ℕ, ◌≡◌, refl, Text}

pub data Exception : Type 0 where
  sandbox_error session_not_found path_not_found : Text → Exception
  -- `HTTPException`: the status and the detail
  http : ℕ → Text → Exception
  -- `asyncio.CancelledError`, which is no `Exception` but a `BaseException`
  cancelled : Exception
  -- any other `Exception`
  failure : Text → Exception

pub data Outcome {ℓ} (A : Type ℓ) : Type ℓ where
  ok : A → Outcome A
  raised : Exception → Outcome A

-- A coroutine over a world `W`.
abbrev pub Run : Type 0 → Type 0 → Type 0
Run W A = W → Outcome A × W

-- What comes after an awaited call: nothing, if it raised.
abbrev pub after : {W A B : Type 0} → (A → Run W B) → Outcome A × W → Outcome B × W
after f (ok a, w) = f a w
after f (raised e, w) = (raised e, w)

infixl 5 ◌>>=◌ ◌>>◌
abbrev pub ◌>>=◌ : {W A B : Type 0} → Run W A → (A → Run W B) → Run W B
◌>>=◌ m f w = after f (m w)

abbrev pub ◌>>◌ : {W B : Type 0} → Run W (Unit {0}) → Run W B → Run W B
m >> k = m >>= λ _. k

abbrev pub return : {W A : Type 0} → A → Run W A
return a w = (ok a, w)

abbrev pub throw : {W A : Type 0} → Exception → Run W A
throw e w = (raised e, w)

pub Outcome-cases :
    {A : Type 0} (o : Outcome A) → ((a : A) × (o ≡ ok a)) ⊎ ((e : Exception) × (o ≡ raised e))
Outcome-cases (ok a) = inl (a, refl)
Outcome-cases (raised e) = inr (e, refl)
