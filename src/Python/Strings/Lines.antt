-- ===== src/Python/Strings/Lines.antt =====
-- `splitlines` and `"\n".join` on lines with no break in them.
use llm_sandbox.Prelude.{
  ℕ, ◌≡◌, ◌≢◌, refl, ap, ◌∙◌, arith, false, List, [], ◌∷◌, ◌++◌, Text, codes, All, All-append, ◌==◌,
  Bool-cases, inl, inr,
}
use llm_sandbox.Python.Strings.{join, splitlines, lines_of, join_crlf, is_break, onto}

-- No character ends a line.
abbrev pub Unbroken : Text → Type 0
Unbroken = All (λ c. is_break c ≡ false)

onto-Unbroken :
    (c : ℕ) (parts : List Text)
    → is_break c ≡ false
    → All Unbroken parts
    → All Unbroken (onto c parts)
onto-Unbroken c [] h k = ((h, tt), tt)
onto-Unbroken c (part ∷ parts) h (p, k) = ((h, p), k)

lines_of-Unbroken : (s : Text) → All Unbroken (lines_of s)
unfolding lines_of
lines_of-Unbroken [] = tt
lines_of-Unbroken (c ∷ cs) = elim (Bool-cases (is_break c)) [
  | inl ends ↦ rw ends (tt, lines_of-Unbroken cs)
  | inr stays ↦ rw stays (onto-Unbroken c (lines_of cs) stays (lines_of-Unbroken cs))
]

pub splitlines-Unbroken : (s : Text) → All Unbroken (splitlines s)
unfolding splitlines
splitlines-Unbroken s = lines_of-Unbroken (join_crlf s)

-- No carriage return.
abbrev Plain : Text → Type 0
Plain = All (λ c. (c == 13) ≡ false)

Unbroken-Plain : (s : Text) → Unbroken s → Plain s
unfolding is_break
Unbroken-Plain [] h = tt
Unbroken-Plain (c ∷ cs) (p, h) = (ground arith, Unbroken-Plain cs h)

join_crlf-Plain : (s : Text) → Plain s → join_crlf s ≡ s
unfolding join_crlf
join_crlf-Plain [] h = refl
join_crlf-Plain (c ∷ cs) (p, h) = rw (p, join_crlf-Plain cs h)

join-Plain : (ls : List Text) → All Unbroken ls → Plain (join (codes "\n") ls)
unfolding join
join-Plain [] h = tt
join-Plain (l ∷ []) (p, h) = Unbroken-Plain l p
join-Plain (l ∷ m ∷ ls) (p, h) =
    All-append _ l (b'\n' ∷ join (codes "\n") (m ∷ ls)) (Unbroken-Plain l p)
      (refl, join-Plain (m ∷ ls) h)

lines_of-append : (s rest : Text) → Unbroken s → lines_of (s ++ b'\n' ∷ rest) ≡ s ∷ lines_of rest
unfolding lines_of is_break
lines_of-append [] rest h = refl
lines_of-append (c ∷ cs) rest (p, h) = rw p (ap (onto c) (lines_of-append cs rest h))

lines_of-alone : (s : Text) → s ≢ [] → Unbroken s → lines_of s ≡ s ∷ []
unfolding lines_of
lines_of-alone [] n h = absurd (n refl)
lines_of-alone (c ∷ []) n (p, h) = rw p refl
lines_of-alone (c ∷ d ∷ s) n (p, h) = rw p (ap (onto c) (lines_of-alone (d ∷ s) (λ e. cc) h))

lines_of-join :
    (ls : List Text) → All (λ l. l ≢ []) ls → All Unbroken ls → lines_of (join (codes "\n") ls) ≡ ls
unfolding join lines_of
lines_of-join [] n h = refl
lines_of-join (l ∷ []) (m, n) (p, h) = lines_of-alone l m p
lines_of-join (l ∷ k ∷ ls) (m, n) (p, h) =
    lines_of-append l (join (codes "\n") (k ∷ ls)) p ∙ ap (◌∷◌ l) (lines_of-join (k ∷ ls) n h)

-- Lines that have no break and are not empty are found again.
pub splitlines-join :
    (ls : List Text)
    → All (λ l. l ≢ []) ls
    → All Unbroken ls
    → splitlines (join (codes "\n") ls) ≡ ls
unfolding splitlines
splitlines-join ls n h =
    ap lines_of (join_crlf-Plain (join (codes "\n") ls) (join-Plain ls h)) ∙ lines_of-join ls n h
