-- ===== src/Python/Query.antt =====
-- `urllib.parse.urlencode` as the code uses it, on texts in UTF-8, and a reader of query strings to
-- check it against.
pub mod Reading
use llm_sandbox.Prelude.{
  ◌-◌, ℕ, ◌+◌, ◌/◌, ◌%◌, ◌*◌, Bool, true, false, ◌||◌, List, [], ◌∷◌, ◌++◌, Text, Bytes, codes, ltb,
  leb, ◌==◌, if◌then◌else◌,
}
use llm_sandbox.Python.Utf8.{encode}
use llm_sandbox.Python.Shlex.{is_alnum, among}

-- What `quote_plus` leaves as it is.
unfoldable pub is_unreserved : ℕ → Bool
is_unreserved b = is_alnum b || among (codes "_.-~") b

-- A digit of `%02X`
unfoldable pub hex : ℕ → ℕ
hex n = if ltb n 10 then b'0' + n else b'A' + n - 10

unfoldable pub quoted_byte : ℕ → Text
unfolding is_unreserved hex
quoted_byte b =
    if is_unreserved b
    then b ∷ []
    else if b == b' '
    then b'+' ∷ []
    else b'%' ∷ hex (b / 16) ∷ hex (b % 16) ∷ []

unfoldable pub quote_bytes : Bytes → Text
unfolding quoted_byte
quote_bytes [] = []
quote_bytes (b ∷ bs) = quoted_byte b ++ quote_bytes bs

-- `quote_plus`
abbrev pub quote_plus : Text → Text
quote_plus s = quote_bytes (encode s)

abbrev pub pair_of : Text × Text → Text
pair_of (k, v) = quote_plus k ++ b'=' ∷ quote_plus v

-- `urlencode`
unfoldable pub urlencode : List (Text × Text) → Text
unfolding quote_bytes
urlencode [] = []
urlencode (p ∷ []) = pair_of p
urlencode (p ∷ q ∷ ps) = pair_of p ++ b'&' ∷ urlencode (q ∷ ps)
