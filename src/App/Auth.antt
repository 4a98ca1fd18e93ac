-- ===== src/App/Auth.antt =====
-- `_auth`, the `SessionId` pattern and `_resolve_image` of src/llm_sandbox/app.py: what a request
-- must pass before a handler acts.
mod Tests
use llm_sandbox.Prelude.{
  Bool-cases, ==_iff, All-append, ℕ, suc, ◌+◌, ◌≤◌, ◌<◌, ◌≡◌, ◌≢◌, ◌↔◌, ◌⊎◌, inl, inr, refl, ap,
  ◌∙◌, sym, arith, Bool, true, false, ◌&&◌, ◌||◌, List, [], ◌∷◌, ◌++◌, Option, none, some, Text,
  Bytes, codes, text_eq, text_eq_iff, elem, length, leb, ltb, ◌==◌, if◌then◌else◌, all, All,
}
use llm_sandbox.Python.Utf8.{encode, decode_strict}
use llm_sandbox.Python.Utf8.RoundTrip.{encode-bytes, IsScalar, decode_strict-encode}
use llm_sandbox.Python.Shlex.{is_alnum, is_safe}
use mathlib.Core.Bool.{and-eq-true_iff, false≢true}
use llm_sandbox.Base.Errors.{Exception, http, Outcome, ok, raised}

-- `authorization.encode("latin-1", errors="replace")`
unfoldable pub encode_latin1 : Text → Bytes
encode_latin1 [] = []
encode_latin1 (c ∷ cs) = (if ltb c 256 then c else b'?') ∷ encode_latin1 cs

-- `_auth`, with the configured token and the header's text; `hmac.compare_digest` is equality.
unfoldable pub auth : Text → Text → Outcome (Unit {0})
unfolding encode_latin1
auth [] authorization = ok tt
auth (c ∷ cs) authorization =
    if text_eq (encode_latin1 authorization) (encode (codes "Bearer " ++ (c ∷ cs)))
    then ok tt
    else raised (http 401 (codes "missing or invalid bearer token"))

-- The header value as the server hands it over: one character for each byte.
encode_latin1-bytes : (bs : Bytes) → All (λ b. b < 256) bs → encode_latin1 bs ≡ bs
unfolding encode_latin1
encode_latin1-bytes [] h = refl
encode_latin1-bytes (b ∷ bs) (p, h) = ground (arith, encode_latin1-bytes bs h)

encode-injective : (s t : Text) → All IsScalar s → All IsScalar t → encode s ≡ encode t → s ≡ t
encode-injective s t h k e =
    let same : some s ≡ some t =
      sym (decode_strict-encode s h) ∙ ap decode_strict e ∙ decode_strict-encode t k in
    cc

bearer-IsScalar : (t : Text) → All IsScalar t → All IsScalar (codes "Bearer " ++ t)
bearer-IsScalar t h = All-append IsScalar (codes "Bearer ") t (omega arith) h

append-cancel : (p s t : Text) → p ++ s ≡ p ++ t → s ≡ t
append-cancel [] s t h = h
append-cancel (c ∷ p) s t h = append-cancel p s t (cc)

-- The two outcomes of the comparison.
abbrev compared : Bytes → Bytes → Outcome (Unit {0})
compared sent asked =
    if text_eq sent asked
    then ok tt
    else raised (http 401 (codes "missing or invalid bearer token"))

accepted_iff : (sent asked : Bytes) → (compared sent asked ≡ ok tt) ↔ (sent ≡ asked)
accepted_iff sent asked = ground (arith, text_eq_iff sent asked)

-- The two outcomes of `auth` for a configured token.
auth-compared :
    (token presented : Text)
    → token ≢ []
    → All IsScalar presented
    → auth token (encode (codes "Bearer " ++ presented))
      ≡ compared (encode (codes "Bearer " ++ presented)) (encode (codes "Bearer " ++ token))
unfolding auth
auth-compared [] presented n k = absurd (n refl)
auth-compared (c ∷ cs) presented n k =
    let same =
      encode_latin1-bytes (encode (codes "Bearer " ++ presented))
        (encode-bytes (codes "Bearer " ++ presented) (bearer-IsScalar presented k)) in
    ap (λ sent. compared sent (encode (codes "Bearer " ++ (c ∷ cs)))) same

bearer-injective :
    (token presented : Text)
    → All IsScalar token
    → All IsScalar presented
    → encode (codes "Bearer " ++ presented) ≡ encode (codes "Bearer " ++ token)
    → presented ≡ token
bearer-injective token presented h k e =
    append-cancel (codes "Bearer ") presented token
      (encode-injective _ _ (bearer-IsScalar presented k) (bearer-IsScalar token h) e)

compared-cases :
    (sent asked : Bytes)
    → ((sent ≡ asked) × (compared sent asked ≡ ok tt))
      ⊎ ((sent ≢ asked)
          × (compared sent asked ≡ raised (http 401 (codes "missing or invalid bearer token"))))
compared-cases sent asked = elim (Bool-cases (text_eq sent asked)) [
  | inl same ↦ inl ((text_eq_iff sent asked).0 same, rw same refl)
  | inr other ↦ inr ((λ e. false≢true (sym other ∙ (text_eq_iff sent asked).1 e)), rw other refl)
]

-- With a token configured, a caller that sends `Bearer` and a token of its own, in any script, is
-- let in exactly if it is the configured one; and if it is not, it is answered with 401.
pub auth_iff :
    (token presented : Text)
    → token ≢ []
    → All IsScalar token
    → All IsScalar presented
    → ((auth token (encode (codes "Bearer " ++ presented)) ≡ ok tt) ↔ (presented ≡ token))
      × ((presented ≡ token)
          ⊎ ((presented ≢ token)
              × (auth token (encode (codes "Bearer " ++ presented))
                  ≡ raised (http 401 (codes "missing or invalid bearer token")))))
auth_iff token presented n h k =
    let sent = encode (codes "Bearer " ++ presented) in
    let asked = encode (codes "Bearer " ++ token) in
    let (to, from) = accepted_iff sent asked in
    let back : presented ≡ token → sent ≡ asked = λ e. ap (λ t. encode (codes "Bearer " ++ t)) e in
    rw (auth-compared token presented n k) (
      ((λ e. bearer-injective token presented h k (to e)), (λ e. from (back e))),
      elim (compared-cases sent asked) [
        | inl (same, _) ↦ inl (bearer-injective token presented h k same)
        | inr (other, answer) ↦ inr ((λ e. other (back e)), answer)
      ],
    )

abbrev pub is_hex : ℕ → Bool
is_hex c = leb b'0' c && leb c b'9' || leb b'a' c && leb c b'f'

-- `SessionId`: the pattern `^[0-9a-f]{16}$`
unfoldable pub is_session_id : Text → Bool
is_session_id sid = length sid == 16 && all is_hex sid

hex-alnum : (c : ℕ) → is_hex c ≡ true → is_alnum c ≡ true
hex-alnum c h = ground arith

hex-safe : (c : ℕ) → is_hex c ≡ true → is_safe c ≡ true
unfolding is_safe
hex-safe c h = rw (hex-alnum c h)

hex-is_safe : (s : Text) → all is_hex s ≡ true → all is_safe s ≡ true
hex-is_safe [] h = refl
hex-is_safe (c ∷ cs) h =
    let (here, later) = (and-eq-true_iff _ _).0 h in rw (hex-safe c here) (hex-is_safe cs later)

-- A session id that gets past the path pattern is 16 characters long, and all of them stand for
-- themselves in a shell.
pub is_session_id-is_safe :
    (sid : Text) → is_session_id sid ≡ true → (length sid ≡ 16) × (all is_safe sid ≡ true)
unfolding is_session_id
is_session_id-is_safe sid h =
    let (sized, hex) = (and-eq-true_iff _ _).0 h in
    ((==_iff (length sid) 16).0 sized, hex-is_safe sid hex)

not_equal : {s t : Text} → text_eq s t ≡ false → s ≡ t → ⊥
not_equal {s} {t} h e = false≢true (sym h ∙ (text_eq_iff s t).1 e)

-- `_resolve_image`; `repr` shows a text in the detail.
module _ (repr : Text → Text) (default_image : Text) (allowed : List Text) where
  unfoldable pub image_detail : Text → Text
  image_detail requested =
      codes "image "
      ++ (repr requested
          ++ (codes " is not allowed — the default image is "
              ++ (repr default_image
                  ++ codes "; other images must be listed in SANDBOX_ALLOWED_IMAGES")))

  unfoldable pub resolve_image : Option Text → Outcome Text
  resolve_image none = ok default_image
  resolve_image (some requested) =
      if text_eq requested default_image
      then ok default_image
      else if elem requested allowed
      then ok requested
      else raised (http 400 (image_detail requested))

  -- The image that a session runs is the default one or one on the allowlist; a request is refused,
  -- with 400, exactly when it names an image that is neither.
  pub resolve_image-outcome :
      (requested : Option Text)
      → ((image : Text) × (resolve_image requested ≡ ok image)
          × ((image ≡ default_image) ⊎ (elem image allowed ≡ true))
          × ((requested ≡ none) ⊎ (requested ≡ some image)))
        ⊎ ((image : Text) × (requested ≡ some image)
            × (image ≢ default_image)
            × (elem image allowed ≡ false)
            × (resolve_image requested ≡ raised (http 400 (image_detail image))))
  unfolding resolve_image
  resolve_image-outcome none = inl (default_image, refl, inl refl, inl refl)
  resolve_image-outcome (some requested) = elim (Bool-cases (text_eq requested default_image)) [
    | inl same ↦
        let e : requested ≡ default_image = (text_eq_iff _ _).0 same in
        inl (default_image, rw same, inl refl, inr (ap some e))
    | inr other ↦ elim (Bool-cases (elem requested allowed)) [
      | inl listed ↦ inl (requested, rw (other, listed), inr listed, inr refl)
      | inr absent ↦ inr (requested, refl, (λ e. not_equal other e), absent, rw (other, absent))
    ]
  ]
