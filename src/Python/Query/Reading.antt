-- ===== src/Python/Query/Reading.antt =====
-- A reader of query strings, as the server has one, and `urlencode` read back by it. The service
-- itself reads none.
use llm_sandbox.Prelude.{
  ℕ, ◌+◌, ◌-◌, ◌*◌, ◌<◌, ◌≡◌, refl, ap, ◌∙◌, arith, Bool, true, false, List, [], ◌∷◌, ◌++◌, Text,
  Bytes, leb, ◌==◌, if◌then◌else◌, keep, map, All, All-append,
}
use llm_sandbox.Python.Strings.Parts.{Lacks, split-append, split-none, partition-append}
use llm_sandbox.Python.Strings.{split, partition}
use llm_sandbox.Python.Utf8.{encode}
use llm_sandbox.Python.Query.{
  is_unreserved, hex, quoted_byte, quote_bytes, quote_plus, pair_of, urlencode,
}

abbrev value : ℕ → ℕ
value c = if leb c b'9' then c - b'0' else c - b'A' + 10

-- Where the reader stands in an escape.
pub data Escape : Type 0 where
  outside percent : Escape
  half : ℕ → Escape

read_char : Escape → ℕ → Escape × Bytes
read_char outside c =
    if c == b'%' then (percent, []) else (outside, (if c == b'+' then b' ' else c) ∷ [])
read_char percent c = (half (value c), [])
read_char (half n) c = (outside, (n * 16 + value c) ∷ [])

unfoldable pub unescape : Escape → Text → Bytes
unfolding read_char
unescape e [] = []
unescape e (c ∷ cs) = let (e', out) = read_char e c in out ++ unescape e' cs

abbrev pub read_pair : Text → Bytes × Bytes
read_pair part = let (k, found, v) = partition b'=' part in (unescape outside k, unescape outside v)

abbrev is_filled : Text → Bool
is_filled [] = false
is_filled (c ∷ cs) = true

abbrev read_parts : List Text → List (Bytes × Bytes)
read_parts parts = map read_pair (keep is_filled parts)

unfoldable pub read_query : Text → List (Bytes × Bytes)
unfolding unescape
read_query s = read_parts (split b'&' s)

hex-value : (n : ℕ) → n < 16 → value (hex n) ≡ n
unfolding hex
hex-value n h = ground arith

unescape-quoted_byte :
    (b : ℕ) (rest : Text)
    → b < 256
    → unescape outside (quoted_byte b ++ rest) ≡ b ∷ unescape outside rest
unfolding unescape read_char quoted_byte is_unreserved hex
unescape-quoted_byte b rest h = ground arith

quoted_byte-Lacks : (b : ℕ) → b < 256 → Lacks b'&' (quoted_byte b) × Lacks b'=' (quoted_byte b)
unfolding quoted_byte is_unreserved hex
quoted_byte-Lacks b h = ground arith

abbrev pub AreBytes : Bytes → Type 0
AreBytes = All (λ b. b < 256)

unescape-quote_bytes : (bs : Bytes) → AreBytes bs → unescape outside (quote_bytes bs) ≡ bs
unfolding quote_bytes
unescape-quote_bytes [] h = unfold unescape in refl
unescape-quote_bytes (b ∷ bs) (p, h) =
    unescape-quoted_byte b (quote_bytes bs) p ∙ ap (◌∷◌ b) (unescape-quote_bytes bs h)

quote_bytes-Lacks :
    (bs : Bytes) → AreBytes bs → Lacks b'&' (quote_bytes bs) × Lacks b'=' (quote_bytes bs)
unfolding quote_bytes
quote_bytes-Lacks [] h = (tt, tt)
quote_bytes-Lacks (b ∷ bs) (p, h) =
    let (one, two) = quoted_byte-Lacks b p in
    let (ones, twos) = quote_bytes-Lacks bs h in
    (
      All-append _ (quoted_byte b) (quote_bytes bs) one ones,
      All-append _ (quoted_byte b) (quote_bytes bs) two twos,
    )

abbrev pub encoded : Text × Text → Bytes × Bytes
encoded (k, v) = (encode k, encode v)

-- Both texts of a pair are bytes in UTF-8.
abbrev pub IsEncodable : Text × Text → Type 0
IsEncodable (k, v) = AreBytes (encode k) × AreBytes (encode v)

read_pair-pair_of : (p : Text × Text) → IsEncodable p → read_pair (pair_of p) ≡ encoded p
read_pair-pair_of (k, v) (hk, hv) =
    ap (λ r. (unescape outside r.0, unescape outside r.2))
      (partition-append b'=' (quote_plus k) (quote_plus v) (quote_bytes-Lacks (encode k) hk).1)
    ∙ ap2 (unescape-quote_bytes (encode k) hk) (unescape-quote_bytes (encode v) hv)
  where
    ap2 : {a b c d : Bytes} → a ≡ b → c ≡ d → ◌≡◌ {A = Bytes × Bytes} (a, c) (b, d)
    ap2 e e' = rw (e, e')

pair_of-Lacks : (p : Text × Text) → IsEncodable p → Lacks b'&' (pair_of p)
pair_of-Lacks (k, v) (hk, hv) =
    All-append _ (quote_plus k) (b'=' ∷ quote_plus v) (quote_bytes-Lacks (encode k) hk).0
      (refl, (quote_bytes-Lacks (encode v) hv).0)

is_filled-pair_of : (p : Text × Text) → is_filled (pair_of p) ≡ true
is_filled-pair_of (k, v) = filled (quote_plus k) (quote_plus v)
  where
    filled : (s t : Text) → is_filled (s ++ b'=' ∷ t) ≡ true
    filled [] t = refl
    filled (c ∷ cs) t = refl

read_parts-filled :
    (s : Text) (parts : List Text)
    → is_filled s ≡ true
    → read_parts (s ∷ parts) ≡ read_pair s ∷ read_parts parts
read_parts-filled [] parts h = ground arith
read_parts-filled (c ∷ cs) parts h = refl

read_parts-pair_of :
    (p : Text × Text) (parts : List Text)
    → IsEncodable p
    → read_parts (pair_of p ∷ parts) ≡ encoded p ∷ read_parts parts
read_parts-pair_of p parts h =
    read_parts-filled (pair_of p) parts (is_filled-pair_of p)
    ∙ ap (λ r. r ∷ read_parts parts) (read_pair-pair_of p h)

-- A server that reads the query string has every name and every value as they were given, in their
-- order, whatever characters they have.
pub read_query-urlencode :
    (query : List (Text × Text))
    → All IsEncodable query
    → read_query (urlencode query) ≡ map encoded query
unfolding read_query urlencode
read_query-urlencode [] h = unfold split in refl
read_query-urlencode (p ∷ []) (hp, h) =
    ap read_parts (split-none b'&' (pair_of p) (pair_of-Lacks p hp)) ∙ read_parts-pair_of p [] hp
read_query-urlencode (p ∷ q ∷ ps) (hp, h) =
    ap read_parts (split-append b'&' (pair_of p) (urlencode (q ∷ ps)) (pair_of-Lacks p hp))
    ∙ read_parts-pair_of p (split b'&' (urlencode (q ∷ ps))) hp
    ∙ ap (◌∷◌ (encoded p)) (read_query-urlencode (q ∷ ps) h)
