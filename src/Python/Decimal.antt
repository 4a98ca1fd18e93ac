-- ===== src/Python/Decimal.antt =====
-- `str(n)` and `int(s)` on integers. Of the digits that `int` takes, only the ASCII ones are
-- modelled.
pub mod RoundTrip
use llm_sandbox.Prelude.{
  ℕ, zero, suc, ◌+◌, ◌-◌, ◌*◌, ◌/◌, ◌%◌, Bool, true, false, ◌&&◌, ◌||◌, List, [], ◌∷◌, Option, none,
  some, Text, Bytes, codes, ◌≡◌, refl, not, ltb, leb, ◌==◌, if◌then◌else◌,
}
use llm_sandbox.Prelude.Int.{ℤ, pos, negsuc}
use llm_sandbox.Python.Strings.{strip, strip_bytes}

abbrev pub digit : ℕ → ℕ
digit n = b'0' + n % 10

-- One digit a round, from the right; the fuel is more than the rounds.
pub digits : ℕ → ℕ → Text → Text
digits zero n acc = acc
digits (suc fuel) n acc =
    let longer = digits fuel (n / 10) (digit n ∷ acc) in if ltb n 10 then digit n ∷ acc else longer

unfoldable pub decimal : ℕ → Text
unfolding digits
decimal n = digits (suc n) n []

-- `str(n)`
unfoldable pub str_int : ℤ → Text
unfolding decimal
str_int (pos n) = decimal n
str_int (negsuc n) = b'-' ∷ decimal (suc n)

abbrev pub is_digit : ℕ → Bool
is_digit c = leb b'0' c && leb c b'9'

-- Digits with single underscores between them; the flag says that a digit must come next.
pub scan : ℕ → Bool → Text → Option ℕ
scan v true [] = none
scan v false [] = some v
scan v need (c ∷ cs) = elim (is_digit c) [
  | true ↦ scan (v * 10 + (c - b'0')) false cs
  | false ↦ elim (c == b'_' && not need) [ true ↦ scan v true cs | false ↦ none ]
]

abbrev from_ℕ : Option ℕ → Option ℤ
from_ℕ none = none
from_ℕ (some n) = some (pos n)

abbrev negated : Option ℕ → Option ℤ
negated none = none
negated (some zero) = some (pos 0)
negated (some (suc n)) = some (negsuc n)

abbrev pub signed : Text → Option ℤ
signed [] = none
signed (c ∷ cs) =
    if c == b'-'
    then negated (scan 0 true cs)
    else if c == b'+'
    then from_ℕ (scan 0 true cs)
    else from_ℕ (scan 0 true (c ∷ cs))

-- `int(s)`; `none` is a `ValueError`.
unfoldable pub int : Text → Option ℤ
unfolding scan strip
int s = signed (strip s)

-- `int(b)` of bytes
unfoldable pub int_bytes : Bytes → Option ℤ
unfolding scan strip_bytes
int_bytes s = signed (strip_bytes s)

int_test :
    (int (codes " -1_024 ") ≡ some (negsuc 1023))
    × (int (codes "12a") ≡ none)
    × (int (codes "1__0") ≡ none)
    × (str_int (negsuc 41) ≡ codes "-42")
unfolding int str_int
int_test = (refl, refl, refl, refl)
