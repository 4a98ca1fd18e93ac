-- ===== src/Python/Utf8.antt =====
-- `str.encode("utf-8")`, and `bytes.decode("utf-8")` with both error modes: strict, and the
-- replacement of each maximal ill-formed part by U+FFFD. Texts here have no lone surrogates, which
-- the JSON body parser refuses.
pub mod RoundTrip
use llm_sandbox.Prelude.{
  ℕ, zero, suc, ◌+◌, ◌-◌, ◌*◌, ◌/◌, ◌%◌, ◌≡◌, refl, Bool, true, false, ◌&&◌, ◌||◌, List, [], ◌∷◌,
  ◌++◌, Option, none, some, Text, Bytes, codes, ltb, leb, ◌==◌, if◌then◌else◌, length,
}

abbrev tail_byte : ℕ → ℕ
tail_byte n = 128 + n % 64

unfoldable pub encode_char : ℕ → Bytes
encode_char c =
    if ltb c 128
    then c ∷ []
    else if ltb c 2048
    then (192 + c / 64) ∷ tail_byte c ∷ []
    else if ltb c 65536
    then (224 + c / 4096) ∷ tail_byte (c / 64) ∷ tail_byte c ∷ []
    else (240 + c / 262144) ∷ tail_byte (c / 4096) ∷ tail_byte (c / 64) ∷ tail_byte c ∷ []

unfoldable pub encode : Text → Bytes
unfolding encode_char
encode [] = []
encode (c ∷ cs) = encode_char c ++ encode cs

-- What a byte sequence begins with: nothing, a character, or an ill-formed part.
pub data Head : Type 0 where
  end : Head
  char : ℕ → Bytes → Head
  bad : Bytes → Head

abbrev pub is_tail : ℕ → Bool
is_tail b = leb 128 b && leb b 191

-- The second byte of three or four: no overlong form, no surrogate, nothing above U+10FFFF.
abbrev pub second_fits : ℕ → ℕ → Bool
second_fits a b =
    if a == 224
    then leb 160 b && leb b 191
    else if a == 237
    then leb 128 b && leb b 159
    else if a == 240
    then leb 144 b && leb b 191
    else if a == 244
    then leb 128 b && leb b 143
    else is_tail b

pub last_byte : ℕ → Bytes → Head
last_byte v [] = bad []
last_byte v (b ∷ bs) = if is_tail b then char (v * 64 + (b - 128)) bs else bad (b ∷ bs)

pub third_byte : ℕ → Bytes → Head
third_byte v [] = bad []
third_byte v (b ∷ bs) = if is_tail b then last_byte (v * 64 + (b - 128)) bs else bad (b ∷ bs)

pub three_bytes : ℕ → Bytes → Head
three_bytes a [] = bad []
three_bytes a (b ∷ bs) =
    if second_fits a b then last_byte ((a - 224) * 64 + (b - 128)) bs else bad (b ∷ bs)

pub four_bytes : ℕ → Bytes → Head
four_bytes a [] = bad []
four_bytes a (b ∷ bs) =
    if second_fits a b then third_byte ((a - 240) * 64 + (b - 128)) bs else bad (b ∷ bs)

unfoldable pub head : Bytes → Head
head [] = end
head (a ∷ bs) =
    if ltb a 128
    then char a bs
    else if leb 194 a && leb a 223
    then last_byte (a - 192) bs
    else if leb 224 a && leb a 239
    then three_bytes a bs
    else if leb 240 a && leb a 244
    then four_bytes a bs
    else bad bs

abbrev then_char : ℕ → Option Text → Option Text
then_char c none = none
then_char c (some s) = some (c ∷ s)

-- The fuel is more than the bytes; each round takes one at least.
pub strict_from : ℕ → Bytes → Option Text
strict_from zero bs = none
strict_from (suc fuel) bs = elim (head bs) [
  | end ↦ some []
  | char c rest ↦ then_char c (strict_from fuel rest)
  | bad rest ↦ none
]

-- `data.decode("utf-8")`; `none` is a `UnicodeDecodeError`.
unfoldable pub decode_strict : Bytes → Option Text
unfolding strict_from head last_byte third_byte three_bytes four_bytes
decode_strict bs = strict_from (suc (length bs)) bs

pub replace_from : ℕ → Bytes → Text
replace_from zero bs = []
replace_from (suc fuel) bs = elim (head bs) [
  | end ↦ []
  | char c rest ↦ c ∷ replace_from fuel rest
  | bad rest ↦ 0xfffd ∷ replace_from fuel rest
]

-- `data.decode("utf-8", errors="replace")`
unfoldable pub decode : Bytes → Text
unfolding replace_from head last_byte third_byte three_bytes four_bytes
decode bs = replace_from (suc (length bs)) bs

utf8_test :
    (encode (codes "é€😀") ≡ 0xc3 ∷ 0xa9 ∷ 0xe2 ∷ 0x82 ∷ 0xac ∷ 0xf0 ∷ 0x9f ∷ 0x98 ∷ 0x80 ∷ [])
    × (decode_strict (0xe2 ∷ 0x82 ∷ 0xac ∷ []) ≡ some (codes "€"))
    × (decode_strict (0xe2 ∷ 0x82 ∷ []) ≡ none)
    × (decode (b'a' ∷ 0xe2 ∷ 0x82 ∷ b'b' ∷ []) ≡ b'a' ∷ 0xfffd ∷ b'b' ∷ [])
unfolding encode decode_strict decode
utf8_test = (refl, refl, refl, refl)
