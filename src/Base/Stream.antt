-- ===== src/Base/Stream.antt =====
-- Bounded collection of a stream: `pump` of `run_cli` in src/llm_sandbox/providers/base.py.
use llm_sandbox.Prelude.{
  codes, inr, inl, sym, Bool-cases, false, ℕ, zero, suc, ◌-◌, ◌≡◌, ◌≢◌, refl, ap, ◌∙◌, arith, List,
  [], ◌∷◌, ◌++◌, Bytes, Option, none, some, length, take, ltb, if◌then◌else◌, All, append-nil,
  append_assoc,
}
use llm_sandbox.Prelude.Int.{ℤ, pos, negsuc}

-- One chunk against the room left: `max_bytes - len(buf)`, which is used only where it is positive.
unfoldable pub extend : ℕ → Bytes → Bytes → Bytes
extend limit buf chunk =
    if ltb 0 (limit - length buf) then buf ++ take (limit - length buf) chunk else buf

-- `pump`: an empty chunk is the end of the stream.
unfoldable pub pump : Option ℕ → Bytes → List Bytes → Bytes
unfolding extend
pump max_bytes buf [] = buf
pump max_bytes buf ([] ∷ chunks) = buf
pump none buf ((b ∷ bs) ∷ chunks) = pump none (buf ++ b ∷ bs) chunks
pump (some limit) buf ((b ∷ bs) ∷ chunks) = pump (some limit) (extend limit buf (b ∷ bs)) chunks

abbrev pub concat : List Bytes → Bytes
concat [] = []
concat (c ∷ cs) = c ++ concat cs

minus_zero : (n : ℕ) → n - 0 ≡ n
minus_zero n = omega arith

minus_suc : (n m : ℕ) → suc n - suc m ≡ n - m
minus_suc n m = omega arith

no_room : (n : ℕ) → ltb 0 n ≡ false → n ≡ 0
no_room n h = ground arith

take_none : (limit : ℕ) → ◌≡◌ {A = Bytes} (take limit []) []
take_none zero = refl
take_none (suc n) = refl

take-append_short :
    (n : ℕ) (xs ys : Bytes) → take n xs ++ take (n - length (take n xs)) ys ≡ take n (xs ++ ys)
take-append_short zero xs ys = refl
take-append_short (suc n) [] ys = ap (λ k. take k ys) (minus_zero (suc n))
take-append_short (suc n) (x ∷ xs) ys =
    ap (λ k. x ∷ (take n xs ++ take k ys)) (minus_suc n (length (take n xs)))
    ∙ ap (◌∷◌ x) (take-append_short n xs ys)

-- Capping as the chunks arrive is capping the whole.
pub extend-take :
    (limit : ℕ) (xs chunk : Bytes) → extend limit (take limit xs) chunk ≡ take limit (xs ++ chunk)
unfolding extend
extend-take limit xs chunk = elim (Bool-cases (ltb 0 (limit - length (take limit xs)))) [
  | inl room ↦ rw room (take-append_short limit xs chunk)
  | inr full ↦
      rw (full, ← take-append_short limit xs chunk)
        (sym (append-nil (take limit xs))
          ∙ ap (λ k. take limit xs ++ take k chunk) (sym (no_room _ full)))
]

pump-take :
    (limit : ℕ) (xs : Bytes) (chunks : List Bytes)
    → All (λ c. c ≢ []) chunks
    → pump (some limit) (take limit xs) chunks ≡ take limit (xs ++ concat chunks)
unfolding pump
pump-take limit xs [] h = ap (take limit) (sym (append-nil xs))
pump-take limit xs ([] ∷ cs) (p, h) = absurd (p refl)
pump-take limit xs ((b ∷ bs) ∷ cs) (p, h) =
    ap (λ t. pump (some limit) t cs) (extend-take limit xs (b ∷ bs))
    ∙ pump-take limit (xs ++ b ∷ bs) cs h
    ∙ ap (take limit) (append_assoc xs (b ∷ bs) (concat cs))

pump_uncapped :
    (xs : Bytes) (chunks : List Bytes)
    → All (λ c. c ≢ []) chunks
    → pump none xs chunks ≡ xs ++ concat chunks
unfolding pump
pump_uncapped xs [] h = sym (append-nil xs)
pump_uncapped xs ([] ∷ cs) (p, h) = absurd (p refl)
pump_uncapped xs ((b ∷ bs) ∷ cs) (p, h) =
    pump_uncapped (xs ++ b ∷ bs) cs h ∙ append_assoc xs (b ∷ bs) (concat cs)

-- A stream that arrives in non-empty chunks is collected as the first `max_bytes` bytes of the
-- whole, however it was cut into chunks; with no cap, as the whole.
pub pump-concat :
    (chunks : List Bytes)
    → All (λ c. c ≢ []) chunks
    → ((limit : ℕ) → pump (some limit) [] chunks ≡ take limit (concat chunks))
      × (pump none [] chunks ≡ concat chunks)
pump-concat chunks h = (
  λ limit.
      ap (λ t. pump (some limit) t chunks) (sym (take_none limit)) ∙ pump-take limit [] chunks h,
  pump_uncapped [] chunks h,
)

-- What the child process did, as `run_cli` sees it.
pub data Process : Type 0 where
  -- the return code, if there is one, and the chunks of stdout and stderr
  exited : Option ℤ → List Bytes → List Bytes → Process
  timed_out : Process

pub record Reply : Type 0 where
  pub rc : ℤ
  pub out : Bytes
  pub err : Bytes

abbrev pub timeout_reply : Reply
timeout_reply = record { rc = pos 124; out = []; err = codes "sandbox: operation timed out" }

-- `proc.returncode if proc.returncode is not None else -1`
abbrev code_of : Option ℤ → ℤ
code_of none = negsuc 0
code_of (some rc) = rc

-- `run_cli`: a timeout discards what was collected.
unfoldable pub run_cli : Option ℕ → Process → Reply
unfolding pump
run_cli max_bytes (exited rc out err) = record {
  rc = code_of rc;
  out = pump max_bytes [] out;
  err = pump max_bytes [] err;
}
run_cli max_bytes timed_out = timeout_reply
