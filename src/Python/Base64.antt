-- ===== src/Python/Base64.antt =====
-- `base64.b64encode`, with the decoding that it is held against.
use llm_sandbox.Prelude.{
  ℕ, ◌+◌, ◌-◌, ◌*◌, ◌/◌, ◌%◌, ◌<◌, ◌≡◌, refl, arith, false, ◌&&◌, [], ◌∷◌, Text, Bytes, codes, ltb,
  leb, ◌==◌, if◌then◌else◌, All,
}

-- The character of a value below 64.
unfoldable pub symbol : ℕ → ℕ
symbol v =
    if ltb v 26
    then b'A' + v
    else if ltb v 52
    then b'a' + (v - 26)
    else if ltb v 62
    then b'0' + (v - 52)
    else if v == 62
    then b'+'
    else b'/'

unfoldable pub b64encode : Bytes → Text
b64encode [] = []
b64encode (a ∷ []) = symbol (a / 4) ∷ symbol (a % 4 * 16) ∷ b'=' ∷ b'=' ∷ []
b64encode (a ∷ b ∷ []) =
    symbol (a / 4) ∷ symbol (a % 4 * 16 + b / 16) ∷ symbol (b % 16 * 4) ∷ b'=' ∷ []
b64encode (a ∷ b ∷ c ∷ rest) =
    symbol (a / 4)
    ∷ symbol (a % 4 * 16 + b / 16)
    ∷ symbol (b % 16 * 4 + c / 64)
    ∷ symbol (c % 64)
    ∷ b64encode rest

-- The value of a character; 64 for any that stands for none.
unfoldable pub value : ℕ → ℕ
value c =
    if leb b'A' c && leb c b'Z'
    then c - b'A'
    else if leb b'a' c && leb c b'z'
    then c - b'a' + 26
    else if leb b'0' c && leb c b'9'
    then c - b'0' + 52
    else if c == b'+'
    then 62
    else if c == b'/'
    then 63
    else 64

abbrev quad : ℕ → ℕ → ℕ → ℕ → Bytes → Bytes
quad p q r s rest =
    if r == b'='
    then (value p * 4 + value q / 16) ∷ []
    else if s == b'='
    then (value p * 4 + value q / 16) ∷ (value q % 16 * 16 + value r / 4) ∷ []
    else (value p * 4 + value q / 16)
      ∷ (value q % 16 * 16 + value r / 4)
      ∷ (value r % 4 * 64 + value s)
      ∷ rest

-- The bytes that well-formed base64 stands for.
unfoldable pub b64decode : Text → Bytes
b64decode (p ∷ q ∷ r ∷ s ∷ rest) = quad p q r s (b64decode rest)
b64decode cs = []

value-symbol : (v : ℕ) → v < 64 → value (symbol v) ≡ v
unfolding value symbol
value-symbol v h = ground arith

symbol-ne-pad : (v : ℕ) → v < 64 → (symbol v == b'=') ≡ false
unfolding symbol
symbol-ne-pad v h = ground arith

abbrev pub IsByte : ℕ → Type 0
IsByte b = b < 256

pub b64decode-b64encode : (bs : Bytes) → All IsByte bs → b64decode (b64encode bs) ≡ bs
unfolding b64decode b64encode
b64decode-b64encode [] h = refl
b64decode-b64encode (a ∷ []) (ha, _) =
    ground (arith, value-symbol (a / 4), value-symbol (a % 4 * 16))
b64decode-b64encode (a ∷ b ∷ []) (ha, (hb, _)) = ground (
  arith,
  value-symbol (a / 4),
  value-symbol (a % 4 * 16 + b / 16),
  value-symbol (b % 16 * 4),
  symbol-ne-pad (b % 16 * 4),
)
b64decode-b64encode (a ∷ b ∷ c ∷ rest) (ha, (hb, (hc, h))) = ground (
  arith,
  value-symbol (a / 4),
  value-symbol (a % 4 * 16 + b / 16),
  value-symbol (b % 16 * 4 + c / 64),
  value-symbol (c % 64),
  symbol-ne-pad (b % 16 * 4 + c / 64),
  symbol-ne-pad (c % 64),
  b64decode-b64encode rest h,
)

base64_test : b64encode (codes "any c") ≡ codes "YW55IGM="
unfolding b64encode symbol
base64_test = refl
