-- ===== src/Python/Utf8/RoundTrip.antt =====
-- Decoding undoes encoding, in both error modes.
use llm_sandbox.Prelude.{
  All-append, sym, Bool-cases, ℕ, zero, suc, ◌+◌, ◌-◌, ◌*◌, ◌≤◌, ◌<◌, ◌≡◌, ◌⊎◌, inl, inr, refl, ap,
  ◌∙◌, arith, true, [], ◌∷◌, ◌++◌, Option, none, some, Text, Bytes, All, length, length-append,
}
use llm_sandbox.Python.Utf8.{
  encode_char, second_fits, third_byte, last_byte, three_bytes, four_bytes, encode, Head, head,
  char, end, bad, strict_from, replace_from, decode_strict, decode, then_char,
}

-- A Unicode scalar value: no surrogate.
abbrev pub IsScalar : ℕ → Type 0
IsScalar c = (c < 0xd800) ⊎ ((0xe000 ≤ c) × (c < 0x110000))

head-encode_char : (c : ℕ) (rest : Bytes) → IsScalar c → head (encode_char c ++ rest) ≡ char c rest
unfolding head last_byte third_byte three_bytes four_bytes encode_char
head-encode_char c rest h = ground arith

strict_from-encode :
    (fuel : ℕ) (s : Text) → All IsScalar s → length s < fuel → strict_from fuel (encode s) ≡ some s
unfolding strict_from encode
strict_from-encode zero s h lt = elim lt [ ]
strict_from-encode (suc fuel) [] h lt = unfold head in refl
strict_from-encode (suc fuel) (c ∷ cs) (p, h) lt =
    rw (head-encode_char c (encode cs) p, strict_from)
      (ap (then_char c) (strict_from-encode fuel cs h (omega arith)))

replace_from-encode :
    (fuel : ℕ) (s : Text) → All IsScalar s → length s < fuel → replace_from fuel (encode s) ≡ s
unfolding replace_from encode
replace_from-encode zero s h lt = elim lt [ ]
replace_from-encode (suc fuel) [] h lt = unfold head in refl
replace_from-encode (suc fuel) (c ∷ cs) (p, h) lt =
    rw (head-encode_char c (encode cs) p, replace_from)
      (ap (◌∷◌ c) (replace_from-encode fuel cs h (omega arith)))

length-encode_char : (c : ℕ) → 1 ≤ length (encode_char c)
unfolding encode_char
length-encode_char c = ground arith

length-encode : (s : Text) → length s ≤ length (encode s)
unfolding encode
length-encode [] = omega arith
length-encode (c ∷ cs) =
    omega (arith, length-append (encode_char c) (encode cs), length-encode_char c, length-encode cs)

pub decode_strict-encode : (s : Text) → All IsScalar s → decode_strict (encode s) ≡ some s
unfolding decode_strict
decode_strict-encode s h =
    strict_from-encode (suc (length (encode s))) s h (omega (arith, length-encode s))

pub decode-encode : (s : Text) → All IsScalar s → decode (encode s) ≡ s
unfolding decode
decode-encode s h =
    replace_from-encode (suc (length (encode s))) s h (omega (arith, length-encode s))

encode_char_four :
    (a b d x : ℕ)
    → 240 ≤ a
    → 128 ≤ b
    → b ≤ 191
    → 128 ≤ d
    → d ≤ 191
    → 128 ≤ x
    → x ≤ 191
    → 16 ≤ (a - 240) * 64 + (b - 128)
    → encode_char ((((a - 240) * 64 + (b - 128)) * 64 + (d - 128)) * 64 + (x - 128))
      ≡ a ∷ b ∷ d ∷ x ∷ []
unfolding encode_char
encode_char_four a b d x ha hb hb' hd hd' hx hx' h = ground arith

second-bounds :
    (a b : ℕ)
    → 240 ≤ a
    → second_fits a b ≡ true
    → (128 ≤ b) × (b ≤ 191) × (16 ≤ (a - 240) * 64 + (b - 128))
second-bounds a b h e = ground arith

third-inversion :
    (v d x c : ℕ) (bs rest : Bytes)
    → third_byte v (d ∷ x ∷ bs) ≡ char c rest
    → (128 ≤ d)
      × (d ≤ 191)
      × (128 ≤ x)
      × (x ≤ 191)
      × (c ≡ (v * 64 + (d - 128)) * 64 + (x - 128))
      × (rest ≡ bs)
unfolding third_byte last_byte
third-inversion v d x c bs rest e = ground arith

-- What strict decoding takes for a character is the encoding of that character.
module _ (a c : ℕ) (rest : Bytes) where
  abbrev Spells : Bytes → Type 0
  Spells bs = a ∷ bs ≡ encode_char c ++ rest

  one_byte-Spells : (bs : Bytes) → a < 128 → char a bs ≡ char c rest → Spells bs
  unfolding encode_char
  one_byte-Spells bs h e = ground arith

  two_bytes-Spells :
      (bs : Bytes) → 194 ≤ a → a ≤ 223 → last_byte (a - 192) bs ≡ char c rest → Spells bs
  unfolding encode_char last_byte
  two_bytes-Spells [] h k e = cc
  two_bytes-Spells (b ∷ bs) h k e = ground arith

  three_bytes-Spells : (bs : Bytes) → 224 ≤ a → a ≤ 239 → three_bytes a bs ≡ char c rest → Spells bs
  unfolding encode_char three_bytes last_byte
  three_bytes-Spells [] h k e = cc
  three_bytes-Spells (b ∷ []) h k e = ground arith
  three_bytes-Spells (b ∷ d ∷ bs) h k e = ground arith

  four_bytes-Spells : (bs : Bytes) → 240 ≤ a → four_bytes a bs ≡ char c rest → Spells bs
  unfolding four_bytes third_byte last_byte
  four_bytes-Spells [] h e = cc
  four_bytes-Spells (b ∷ []) h e = ground arith
  four_bytes-Spells (b ∷ d ∷ []) h e = ground arith
  four_bytes-Spells (b ∷ d ∷ x ∷ bs) h e = elim (Bool-cases (second_fits a b)) [
    | inl fits ↦
        let (p, q, r) = second-bounds a b h fits in
        let (s, t, u, v, same, tail) =
          third-inversion ((a - 240) * 64 + (b - 128)) d x c bs rest (rw fits at e) in
        rw (same, tail, encode_char_four a b d x h p q s t u v r)
    | inr unfits ↦ let wrong : bad (b ∷ d ∷ x ∷ bs) ≡ char c rest = rw unfits at e in cc
  ]

head-eq-char :
    (bs : Bytes) (c : ℕ) (rest : Bytes) → head bs ≡ char c rest → bs ≡ encode_char c ++ rest
unfolding head
head-eq-char [] c rest h = cc
head-eq-char (a ∷ bs) c rest h = ground (
  arith,
  one_byte-Spells a c rest bs,
  two_bytes-Spells a c rest bs,
  three_bytes-Spells a c rest bs,
  four_bytes-Spells a c rest bs,
)

head-eq-end : (bs : Bytes) → head bs ≡ end → bs ≡ []
unfolding head last_byte third_byte three_bytes four_bytes
head-eq-end [] h = refl
head-eq-end (a ∷ bs) h = ground arith

then_char-eq-some :
    (c : ℕ) (o : Option Text) (s : Text)
    → then_char c o ≡ some s
    → (r : Text) × (o ≡ some r) × (s ≡ c ∷ r)
then_char-eq-some c none s h = cc
then_char-eq-some c (some r) s h = (r, refl, ground arith)

strict_step :
    (fuel : ℕ) (bs : Bytes) (s : Text)
    → ((rest : Bytes) (r : Text) → strict_from fuel rest ≡ some r → encode r ≡ rest)
    → (first : Head) → head bs ≡ first
    → strict_from (suc fuel) bs ≡ some s
    → encode s ≡ bs
unfolding strict_from encode
strict_step fuel bs s ih end e h =
    let empty : some [] ≡ some s = rw (e, strict_from) at h in
    (let same : s ≡ [] = cc in ap encode same ∙ sym (head-eq-end bs e))
strict_step fuel bs s ih (char c rest) e h =
    let (r, decoded, same) =
      then_char-eq-some c (strict_from fuel rest) s (rw (e, strict_from) at h) in
    rw (same, encode, ih rest r decoded) (sym (head-eq-char bs c rest e))
strict_step fuel bs s ih (bad rest) e h = let fails : none ≡ some s = rw (e, strict_from) at h in cc

strict_from-eq-some :
    (fuel : ℕ) (bs : Bytes) (s : Text) → strict_from fuel bs ≡ some s → encode s ≡ bs
unfolding strict_from
strict_from-eq-some zero bs s h = cc
strict_from-eq-some (suc fuel) bs s h =
    strict_step fuel bs s (strict_from-eq-some fuel) (head bs) refl h

-- Bytes that decode are the encoding of what they decode to.
pub encode-decode_strict : (bs : Bytes) (s : Text) → decode_strict bs ≡ some s → encode s ≡ bs
unfolding decode_strict
encode-decode_strict bs s h = strict_from-eq-some (suc (length bs)) bs s h

encode_char-bytes : (c : ℕ) → IsScalar c → All (λ b. b < 256) (encode_char c)
unfolding encode_char
encode_char-bytes c h = ground arith

pub encode-bytes : (s : Text) → All IsScalar s → All (λ b. b < 256) (encode s)
unfolding encode
encode-bytes [] h = tt
encode-bytes (c ∷ cs) (p, h) =
    All-append (λ b. b < 256) (encode_char c) (encode cs) (encode_char-bytes c p)
      (encode-bytes cs h)
