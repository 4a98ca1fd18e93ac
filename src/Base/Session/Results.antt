-- ===== src/Base/Session/Results.antt =====
-- What `_result` of `SessionOpsMixin` reports of a command's output, over the capped streams of
-- `run_cli` (src/llm_sandbox/providers/base.py).
use llm_sandbox.Prelude.{
  length-take, ℕ, zero, suc, ◌≡◌, ◌≢◌, refl, ap, arith, List, [], ◌∷◌, some, Bytes, All, take,
  length, ltb,
}
use llm_sandbox.Base.Limits.{cap_output}
use llm_sandbox.Base.Stream.{pump, concat, pump-concat}

pub take-take-suc {ℓ} : {A : Type ℓ} (n : ℕ) (xs : List A) → take n (take (suc n) xs) ≡ take n xs
take-take-suc zero [] = refl
take-take-suc zero (x ∷ xs) = refl
take-take-suc (suc n) [] = refl
take-take-suc (suc n) (x ∷ xs) = ap (◌∷◌ x) (take-take-suc n xs)

pub over-take-suc {ℓ} :
    {A : Type ℓ} (n : ℕ) (xs : List A) → ltb n (length (take (suc n) xs)) ≡ ltb n (length xs)
over-take-suc n xs = ground (arith, length-take (suc n) xs)

-- One byte past the cap is enough: collecting `cap + 1` bytes of a stream, as the providers do, and
-- capping the rest gives the text and the `truncated` flag of the whole output, whatever its length
-- and its chunks.
pub cap_output-pump :
    (cap : ℕ) (chunks : List Bytes)
    → All (λ c. c ≢ []) chunks
    → cap_output (pump (some (suc cap)) [] chunks) cap ≡ cap_output (concat chunks) cap
unfolding cap_output
cap_output-pump cap chunks h =
    rw ((pump-concat chunks h).0 (suc cap))
      (rw (take-take-suc cap (concat chunks), over-take-suc cap (concat chunks)))
