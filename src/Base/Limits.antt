-- ===== src/Base/Limits.antt =====
-- `clamp_resources` and `cap_output` of src/llm_sandbox/providers/base.py. Floats are a totally
-- ordered type that the caller gives, with the two numbers that the code names.
use llm_sandbox.Prelude.{
  ℕ, ◌≡◌, Bool, true, false, Text, Bytes, length, take, ltb, if◌then◌else◌, Bool-cases, inl, inr,
}
use llm_sandbox.Prelude.Int.{clamp_ℤ_bounds, ℤ, pos, ◌≤ℤ◌, min_ℤ, max_ℤ}
use llm_sandbox.Python.Utf8.{decode}

-- Finite floats: `allow_inf_nan=False` keeps the others out of a request.
pub record Floats : Type 1 where
  pub Float : Type 0
  pub less : Float → Float → Bool
  pub asymmetric : (a b : Float) → less a b ≡ true → less b a ≡ false
  -- 0.1 and 1.0
  pub tenth : Float
  pub one : Float

module _ (f : Floats) where
  open f use {Float, less, asymmetric, tenth}

  -- a <= b
  abbrev pub AtMost : Float → Float → Type 0
  AtMost a b = less b a ≡ false

  -- `min(a, b)` and `max(a, b)`: the first of two equal arguments.
  abbrev pub min_float : Float → Float → Float
  min_float a b = if less b a then b else a

  abbrev pub max_float : Float → Float → Float
  max_float a b = if less a b then b else a

  unfoldable pub clamp_resources : ℤ → Float → ℤ → Float → ℤ × Float
  clamp_resources memory_mb cpus max_memory_mb max_cpus =
      (max_ℤ (pos 64) (min_ℤ memory_mb max_memory_mb), max_float tenth (min_float cpus max_cpus))

  irreflexive : (a : Float) → less a a ≡ false
  irreflexive a = elim (Bool-cases (less a a)) [ inl t ↦ asymmetric a a t | inr e ↦ e ]

  max_float_floor : (a b : Float) → AtMost a (max_float a b)
  max_float_floor a b = elim (Bool-cases (less a b)) [
    | inl t ↦ rw t (asymmetric a b t)
    | inr e ↦ rw e (irreflexive a)
  ]

  min_float_ceiling : (a b : Float) → AtMost (min_float a b) b
  min_float_ceiling a b = elim (Bool-cases (less b a)) [
    | inl t ↦ rw t (irreflexive b)
    | inr e ↦ rw e e
  ]

  max_float_ceiling : (a b c : Float) → AtMost a c → AtMost b c → AtMost (max_float a b) c
  max_float_ceiling a b c h k = elim (Bool-cases (less a b)) [ inl t ↦ rw t k | inr e ↦ rw e h ]

-- What a request gets lies between the floors (64 MiB, 0.1 cpu) and the configured ceilings,
-- whatever integer and float it asked for, if no ceiling lies under its floor.
pub clamp_resources_bounds :
    (f : Floats) (memory_mb max_memory_mb : ℤ) (cpus max_cpus : f.Float)
    → pos 64 ≤ℤ max_memory_mb
    → AtMost f f.tenth max_cpus
    → let r = clamp_resources f memory_mb cpus max_memory_mb max_cpus in
      (pos 64 ≤ℤ r.0) × (r.0 ≤ℤ max_memory_mb) × AtMost f f.tenth r.1 × AtMost f r.1 max_cpus
unfolding clamp_resources
clamp_resources_bounds f m mm c mc h k =
    let (floor, ceiling) = clamp_ℤ_bounds (pos 64) m mm h in
    (
      floor,
      ceiling,
      max_float_floor f f.tenth (min_float f c mc),
      max_float_ceiling f f.tenth (min_float f c mc) mc k (min_float_ceiling f c mc),
    )

-- `cap_output` on bytes: the text, and whether bytes were cut off.
unfoldable pub cap_output : Bytes → ℕ → Text × Bool
cap_output data_bytes limit = (decode (take limit data_bytes), ltb limit (length data_bytes))
