-- ===== src/K8s/Api/Token.antt =====
-- How old the token is that `ApiServer._bearer` (src/llm_sandbox/providers/k8s.py) presents.
use llm_sandbox.Prelude.{
  ap, ℕ, ◌+◌, ◌-◌, ◌≤◌, ◌≡◌, refl, ◌⊎◌, inl, inr, arith, false, List, [], ◌∷◌, Option, none, some,
  Text, ltb, All, Bool-cases,
}
use llm_sandbox.Python.Strings.{strip}
use llm_sandbox.Base.Errors.{Outcome, ok, raised}
use llm_sandbox.K8s.Manifest.{is_empty}
use llm_sandbox.K8s.Api.{Client, TokenFile, token_ttl, header_of, bearer, reread}

-- The header of a call at `now`: the file's text at a moment that lies at most the time to live
-- back; or an exception, and then the file cannot be read at `now`.
abbrev pub IsFresh : TokenFile → ℕ × Outcome Text → Type 0
IsFresh file (now, ok header) =
    (at : ℕ) × (text : Text) × (at ≤ now)
    × (now ≤ at + token_ttl)
    × (file at ≡ some text)
    × (header ≡ header_of (strip text))
IsFresh file (now, raised e) = file now ≡ none

-- The cache holds nothing, or what the file held when it was read.
abbrev pub IsHeld : TokenFile → ℕ → Client → Type 0
IsHeld file now c =
    (c.token ≡ [])
    ⊎ ((text : Text) × (file c.token_at ≡ some text) × (c.token ≡ strip text) × (c.token_at ≤ now))

IsHeld-later :
    (file : TokenFile) (now later : ℕ) (c : Client)
    → now ≤ later
    → IsHeld file now c
    → IsHeld file later c
IsHeld-later file now later c h (inl e) = inl e
IsHeld-later file now later c h (inr (text, e, e', le)) = inr (text, e, e', omega arith)

-- A call answers with a fresh token, and leaves the cache sound.
abbrev Sound : TokenFile → ℕ → Outcome Text × Client → Type 0
Sound file now (o, c) = IsFresh file (now, o) × IsHeld file now c

reread-Sound :
    (file : TokenFile) (now : ℕ) (c : Client) (o : Option Text)
    → file now ≡ o
    → IsHeld file now c
    → Sound file now (reread now c o)
reread-Sound file now c none e h = (e, h)
reread-Sound file now c (some text) e h =
    ((now, text, omega arith, omega arith, e, refl), inr (text, e, refl, omega arith))

held-Sound :
    (file : TokenFile) (now : ℕ) (c : Client)
    → is_empty c.token ≡ false
    → ltb token_ttl (now - c.token_at) ≡ false
    → IsHeld file now c
    → Sound file now (ok (header_of c.token), c)
held-Sound file now c nonempty young (inl e) = ground arith
held-Sound file now c nonempty young (inr (text, e, e', le)) =
    ((c.token_at, text, le, ground arith, e, ap header_of e'), inr (text, e, e', le))

bearer-Sound :
    (file : TokenFile) (now : ℕ) (c : Client)
    → IsHeld file now c
    → Sound file now (bearer file now c)
unfolding bearer
bearer-Sound file now c h = elim (Bool-cases (is_empty c.token)) [
  | inl e ↦ rw e (reread-Sound file now c (file now) refl h)
  | inr e ↦ elim (Bool-cases (ltb token_ttl (now - c.token_at))) [
    | inl old ↦ rw (e, old) (reread-Sound file now c (file now) refl h)
    | inr young ↦ rw (e, young) (held-Sound file now c e young h)
  ]
]

-- Calls at these moments, one after the other.
unfoldable pub bearers : TokenFile → List ℕ → Client → List (ℕ × Outcome Text)
unfolding bearer
bearers file [] c = []
bearers file (now ∷ times) c = let (o, c') = bearer file now c in (now, o) ∷ bearers file times c'

abbrev pub Ascends : ℕ → List ℕ → Type 0
Ascends from [] = Unit {0}
Ascends from (now ∷ times) = (from ≤ now) × Ascends now times

bearers-IsFresh_from :
    (file : TokenFile) (from : ℕ) (times : List ℕ) (c : Client)
    → Ascends from times
    → IsHeld file from c
    → All (IsFresh file) (bearers file times c)
unfolding bearers
bearers-IsFresh_from file from [] c up h = tt
bearers-IsFresh_from file from (now ∷ times) c (le, up) h =
    let (fresh, held) = bearer-Sound file now c (IsHeld-later file from now c le h) in
    (fresh, bearers-IsFresh_from file now times _ up held)

-- A client that starts with no token, asked at moments that do not go back: every call that
-- presents a token presents what the token file held at most 60 seconds earlier, and a call raises
-- only where the file cannot be read at that moment.
pub bearers-IsFresh :
    (file : TokenFile) (times : List ℕ) (authority : Text)
    → Ascends 0 times
    → All (IsFresh file) (
        bearers file times
          (record { authority = authority; token = []; token_at = 0; is_open = false }))
bearers-IsFresh file times authority up = bearers-IsFresh_from file 0 times _ up (inl refl)
