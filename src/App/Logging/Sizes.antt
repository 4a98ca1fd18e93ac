-- ===== src/App/Logging/Sizes.antt =====
-- The sizes that src/llm_sandbox/app.py logs, against the payloads that they are of.
use llm_sandbox.Prelude.{
  ℕ, suc, ◌+◌, ◌*◌, ◌/◌, ◌%◌, ◌≤◌, ◌<◌, ◌≡◌, refl, ap, arith, true, false, [], ◌∷◌, Text, Bytes,
  All, length, all, ltb, if◌then◌else◌,
}
use llm_sandbox.Python.Strings.{rstrip_if}
use llm_sandbox.Python.Base64.{b64encode, symbol, IsByte}
use llm_sandbox.Python.Utf8.{encode}
use llm_sandbox.App.Logging.{decoded_size, is_padding, byte_count, tenths}

symbol-kept : (v : ℕ) → v < 64 → is_padding (symbol v) ≡ false
unfolding symbol
symbol-kept v h = ground arith

kept_step :
    (c : ℕ) (r : Text)
    → is_padding c ≡ false
    → (elim r as (λ x. Text) [ [] ↦ if is_padding c then [] else c ∷ [] | d ∷ ds ↦ c ∷ d ∷ ds ])
      ≡ c ∷ r
kept_step c [] h = rw h
kept_step c (d ∷ ds) h = refl

-- A character that is kept keeps everything before it.
rstrip-kept :
    (c : ℕ) (cs : Text)
    → is_padding c ≡ false
    → rstrip_if is_padding (c ∷ cs) ≡ c ∷ rstrip_if is_padding cs
unfolding rstrip_if
rstrip-kept c cs h = kept_step c (rstrip_if is_padding cs) h

kept-length :
    (c : ℕ) (cs : Text)
    → is_padding c ≡ false
    → length (rstrip_if is_padding (c ∷ cs)) ≡ suc (length (rstrip_if is_padding cs))
kept-length c cs h = ap length (rstrip-kept c cs h)

padding-length :
    (length (rstrip_if is_padding []) ≡ 0)
    × (length (rstrip_if is_padding (b'=' ∷ [])) ≡ 0)
    × (length (rstrip_if is_padding (b'=' ∷ b'=' ∷ [])) ≡ 0)
unfolding rstrip_if
padding-length = (refl, refl, refl)

-- `_payload_metrics` computes the size of a base64 payload without decoding it, and it is the size
-- of the bytes that the payload stands for.
pub decoded_size-b64encode : (bs : Bytes) → All IsByte bs → decoded_size (b64encode bs) ≡ length bs
unfolding decoded_size b64encode
decoded_size-b64encode [] h = omega (arith, padding-length.0)
decoded_size-b64encode (a ∷ []) (p, h) = omega (
  arith,
  padding-length.2,
  kept-length (symbol (a / 4)) (symbol (a % 4 * 16) ∷ b'=' ∷ b'=' ∷ [])
      (symbol-kept (a / 4) (omega arith)),
  kept-length (symbol (a % 4 * 16)) (b'=' ∷ b'=' ∷ []) (symbol-kept (a % 4 * 16) (omega arith)),
)
decoded_size-b64encode (a ∷ b ∷ []) (p, (q, h)) = omega (
  arith,
  padding-length.1,
  kept-length (symbol (a / 4)) (symbol (a % 4 * 16 + b / 16) ∷ symbol (b % 16 * 4) ∷ b'=' ∷ [])
      (symbol-kept (a / 4) (omega arith)),
  kept-length (symbol (a % 4 * 16 + b / 16)) (symbol (b % 16 * 4) ∷ b'=' ∷ [])
      (symbol-kept (a % 4 * 16 + b / 16) (omega arith)),
  kept-length (symbol (b % 16 * 4)) (b'=' ∷ []) (symbol-kept (b % 16 * 4) (omega arith)),
)
decoded_size-b64encode (a ∷ b ∷ c ∷ rest) (p, (q, (r, h))) = omega (
  arith,
  decoded_size-b64encode rest h,
  kept-length (symbol (a / 4))
      (symbol (a % 4 * 16 + b / 16)
        ∷ symbol (b % 16 * 4 + c / 64)
        ∷ symbol (c % 64)
        ∷ b64encode rest)
      (symbol-kept (a / 4) (omega arith)),
  kept-length (symbol (a % 4 * 16 + b / 16))
      (symbol (b % 16 * 4 + c / 64) ∷ symbol (c % 64) ∷ b64encode rest)
      (symbol-kept (a % 4 * 16 + b / 16) (omega arith)),
  kept-length (symbol (b % 16 * 4 + c / 64)) (symbol (c % 64) ∷ b64encode rest)
      (symbol-kept (b % 16 * 4 + c / 64) (omega arith)),
  kept-length (symbol (c % 64)) (b64encode rest) (symbol-kept (c % 64) (omega arith)),
)

length-encode_ascii :
    (text : Text) → all (λ c. ltb c 128) text ≡ true → length (encode text) ≡ length text
unfolding encode
length-encode_ascii [] h = refl
length-encode_ascii (c ∷ cs) h = ground (arith, length-encode_ascii cs)

-- The shortcut for ASCII text counts what the encoding has.
pub byte_count-encode : (text : Text) → byte_count text ≡ length (encode text)
unfolding byte_count
byte_count-encode text = ground (arith, length-encode_ascii text)

-- The rounding is to the nearest tenth.
pub tenths-nearest :
    (n unit : ℕ)
    → 0 < unit
    → (2 * (tenths n unit * unit) ≤ 2 * (n * 10) + unit)
      × (2 * (n * 10) ≤ 2 * (tenths n unit * unit) + unit)
unfolding tenths
tenths-nearest n unit h = grind arith
