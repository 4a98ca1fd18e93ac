-- ===== src/Base/Tests.antt =====
-- Bounds and streams at concrete inputs.
use llm_sandbox.Prelude.{
  ℕ, ◌≡◌, refl, arith, List, [], ◌∷◌, codes, true, false, Bytes, ltb, take, some, none,
}
use llm_sandbox.Prelude.Int.{pos, negsuc, ◌≤ℤ◌}
use llm_sandbox.Base.Limits.{Floats, AtMost, clamp_resources, clamp_resources_bounds}
use llm_sandbox.Base.Stream.{pump, concat, pump-concat}

pub ltb_asymmetric : (a b : ℕ) → ltb a b ≡ true → ltb b a ≡ false
ltb_asymmetric a b h = ground arith

-- Tenths, as numbers.
abbrev pub tenths : Floats
tenths = record { Float = ℕ; less = ltb; asymmetric = ltb_asymmetric; tenth = 1; one = 10 }

clamped_request_test :
    let r = clamp_resources tenths (negsuc 4) 50 (pos 4096) 20 in
    (pos 64 ≤ℤ r.0) × (r.0 ≤ℤ pos 4096) × AtMost tenths 1 r.1 × AtMost tenths r.1 20
clamped_request_test = clamp_resources_bounds tenths (negsuc 4) (pos 4096) 50 20 (omega arith) refl

abbrev chunks : List Bytes
chunks = codes "abc" ∷ codes "de" ∷ []

pumped_test :
    ((limit : ℕ) → pump (some limit) [] chunks ≡ take limit (concat chunks))
    × (pump none [] chunks ≡ concat chunks)
pumped_test = pump-concat chunks (cc, (cc, tt))
