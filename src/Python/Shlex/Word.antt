-- ===== src/Python/Shlex/Word.antt =====
-- How a POSIX shell reads one word: bare characters stand for themselves, a single-quoted part is
-- literal, a double-quoted part is literal where it has no `$`, backquote or backslash.
use llm_sandbox.Prelude.{
  ==_iff, append-nil, ℕ, ◌≡◌, refl, ap, ◌∙◌, arith, ◌++◌, Bool, true, false, ◌||◌, [], ◌∷◌, Option,
  none, some, Text, codes, ◌==◌, if◌then◌else◌, all, append_assoc, Bool-cases, inl, inr,
}
use mathlib.Core.Bool.{and-eq-true_iff}
use llm_sandbox.Python.Shlex.{is_alnum, is_safe, among, apostrophe, quotation, escape, quote}

pub data Mode : Type 0 where
  plain single double : Mode

-- What ends a bare word: a blank, a newline or an operator character.
abbrev pub is_delimiter : ℕ → Bool
is_delimiter c = among (codes " \t\n;&|<>()") c

-- What a bare word can hold with no meaning to the shell. `=` and `:` have none past the first word.
unfoldable pub is_bare : ℕ → Bool
is_bare c = is_alnum c || among (codes "_@%+=:,./-") c

abbrev expands : ℕ → Bool
expands c = among (codes "$`\\") c

abbrev cons : ℕ → Option (Text × Text) → Option (Text × Text)
cons c none = none
cons c (some (w, rest)) = some (c ∷ w, rest)

-- The word that a text begins with and what follows it; `none` where an expansion, a glob or an
-- unclosed quote makes it another thing.
unfoldable pub read_word : Mode → Text → Option (Text × Text)
read_word plain [] = some ([], [])
read_word plain (c ∷ cs) = elim (is_bare c) [
  | true ↦ cons c (read_word plain cs)
  | false ↦ elim (c == apostrophe) [
    | true ↦ read_word single cs
    | false ↦ elim (c == quotation) [
      | true ↦ read_word double cs
      | false ↦ if is_delimiter c then some ([], c ∷ cs) else none
    ]
  ]
]
read_word single [] = none
read_word single (c ∷ cs) = elim (c == apostrophe) [
  | true ↦ read_word plain cs
  | false ↦ cons c (read_word single cs)
]
read_word double [] = none
read_word double (c ∷ cs) = elim (c == quotation) [
  | true ↦ read_word plain cs
  | false ↦ elim (expands c) [ true ↦ none | false ↦ cons c (read_word double cs) ]
]

abbrev pub prepend : Text → Option (Text × Text) → Option (Text × Text)
prepend [] r = r
prepend (c ∷ cs) r = cons c (prepend cs r)

plain_bare :
    (c : ℕ) (cs : Text) → is_bare c ≡ true → read_word plain (c ∷ cs) ≡ cons c (read_word plain cs)
unfolding read_word
plain_bare c cs h = rw (h, read_word)

single_keeps :
    (c : ℕ) (cs : Text)
    → (c == apostrophe) ≡ false
    → read_word single (c ∷ cs) ≡ cons c (read_word single cs)
unfolding read_word
single_keeps c cs h = rw (h, read_word)

apostrophe_opens : (cs : Text) → read_word plain (apostrophe ∷ cs) ≡ read_word single cs
unfolding read_word is_bare
apostrophe_opens cs = refl

apostrophe_closes : (cs : Text) → read_word single (apostrophe ∷ cs) ≡ read_word plain cs
unfolding read_word
apostrophe_closes cs = refl

escape-apostrophe :
    (cs : Text)
    → escape (apostrophe ∷ cs)
      ≡ apostrophe ∷ quotation ∷ apostrophe ∷ quotation ∷ apostrophe ∷ escape cs
unfolding escape
escape-apostrophe cs = refl

escape_other : (c : ℕ) (cs : Text) → (c == apostrophe) ≡ false → escape (c ∷ cs) ≡ c ∷ escape cs
unfolding escape
escape_other c cs h = rw (h, escape)

-- The five characters that stand for an apostrophe.
apostrophe_detour :
    (cs : Text)
    → read_word single (apostrophe ∷ quotation ∷ apostrophe ∷ quotation ∷ apostrophe ∷ cs)
      ≡ cons apostrophe (read_word single cs)
unfolding read_word is_bare
apostrophe_detour cs = refl

read_word-escape :
    (s rest : Text) → read_word single (escape s ++ rest) ≡ prepend s (read_word single rest)
read_word-escape [] rest = unfold escape in refl
read_word-escape (c ∷ cs) rest = elim (Bool-cases (c == apostrophe)) [
  | inl same ↦
      rw ((==_iff c apostrophe).0 same, escape-apostrophe)
        (apostrophe_detour (escape cs ++ rest) ∙ ap (cons apostrophe) (read_word-escape cs rest))
  | inr other ↦
      rw (escape_other c cs other)
        (single_keeps c (escape cs ++ rest) other ∙ ap (cons c) (read_word-escape cs rest))
]

safe-bare : (c : ℕ) → is_safe c ≡ true → is_bare c ≡ true
unfolding is_safe is_bare
safe-bare c h = h

read_word-safe :
    (s rest : Text)
    → all is_safe s ≡ true
    → read_word plain (s ++ rest) ≡ prepend s (read_word plain rest)
unfolding read_word
read_word-safe [] rest h = refl
read_word-safe (c ∷ cs) rest h =
    let (here, later) = (and-eq-true_iff _ _).0 h in
    plain_bare c (cs ++ rest) (safe-bare c here) ∙ ap (cons c) (read_word-safe cs rest later)

read_word-quote_prefix :
    (s rest : Text) → read_word plain (quote s ++ rest) ≡ prepend s (read_word plain rest)
unfolding quote
read_word-quote_prefix [] rest = apostrophe_opens (apostrophe ∷ rest) ∙ apostrophe_closes rest
read_word-quote_prefix (c ∷ cs) rest = elim (Bool-cases (all is_safe (c ∷ cs))) [
  | inl safe ↦ rw safe (read_word-safe (c ∷ cs) rest safe)
  | inr unsafe ↦
      rw (unsafe, append_assoc)
        (apostrophe_opens (escape (c ∷ cs) ++ apostrophe ∷ rest)
          ∙ read_word-escape (c ∷ cs) (apostrophe ∷ rest)
          ∙ ap (prepend (c ∷ cs)) (apostrophe_closes rest))
]

-- What may follow a word: the end, or a character that ends it.
abbrev pub Ends : Text → Type 0
Ends [] = Unit {0}
Ends (c ∷ cs) = is_delimiter c ≡ true

delimiter_is_special :
    (c : ℕ)
    → is_delimiter c ≡ true
    → (is_bare c ≡ false) × ((c == apostrophe) ≡ false) × ((c == quotation) ≡ false)
unfolding is_bare
delimiter_is_special c h = ground arith

read_word-end : (rest : Text) → Ends rest → read_word plain rest ≡ some ([], rest)
unfolding read_word
read_word-end [] h = refl
read_word-end (c ∷ cs) d =
    let (b, a, q) = delimiter_is_special c d in
    rw (b, read_word) (rw (a, read_word) (rw (q, read_word) (rw d)))

prepend-some : (s w rest : Text) → prepend s (some (w, rest)) ≡ some (s ++ w, rest)
prepend-some [] w rest = refl
prepend-some (c ∷ cs) w rest = rw (prepend-some cs w rest)

-- Whatever text is quoted, a shell reads it back as one word that is that text, and goes on right
-- behind it: no quoted text opens an expansion, ends the word early or takes in what follows.
pub read_word-quote :
    (s rest : Text) → Ends rest → read_word plain (quote s ++ rest) ≡ some (s, rest)
read_word-quote s rest h =
    rw (read_word-quote_prefix s rest, read_word-end rest h, prepend-some s [] rest, append-nil s)
