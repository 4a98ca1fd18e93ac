-- ===== src/Python/Shlex.antt =====
-- `shlex.quote`, which src/llm_sandbox/providers/base.py puts round every caller-supplied word of a
-- shell command, and how a POSIX shell reads a word.
pub mod Word
use llm_sandbox.Prelude.{
  ℕ, ◌≡◌, ◌++◌, Bool, true, false, ◌&&◌, ◌||◌, not, List, [], ◌∷◌, Text, codes, leb, ◌==◌,
  if◌then◌else◌, all, refl,
}

abbrev pub is_alnum : ℕ → Bool
is_alnum c = leb b'a' c && leb c b'z' || (leb b'A' c && leb c b'Z' || leb b'0' c && leb c b'9')

abbrev pub apostrophe : ℕ
apostrophe = 39

abbrev pub quotation : ℕ
quotation = 34

abbrev pub among : Text → ℕ → Bool
among [] c = false
among (d ∷ ds) c = c == d || among ds c

-- The characters that `quote` leaves bare: ASCII letters, digits and `_@%+=:,./-`.
unfoldable pub is_safe : ℕ → Bool
is_safe c = is_alnum c || among (codes "_@%+=:,./-") c

-- `s.replace("'", "'\"'\"'")`
unfoldable pub escape : Text → Text
escape [] = []
escape (c ∷ cs) =
    let rest = escape cs in
    if c == apostrophe
    then apostrophe ∷ quotation ∷ apostrophe ∷ quotation ∷ apostrophe ∷ rest
    else c ∷ rest

unfoldable pub quote : Text → Text
unfolding escape is_safe
quote [] = apostrophe ∷ apostrophe ∷ []
quote (c ∷ cs) =
    if all is_safe (c ∷ cs) then c ∷ cs else apostrophe ∷ (escape (c ∷ cs) ++ apostrophe ∷ [])

quoted_test : quote (codes "it's $HOME") ≡ codes "'it'\"'\"'s $HOME'"
unfolding quote
quoted_test = refl

bare_test : quote (codes "/workspace/a-1.csv") ≡ codes "/workspace/a-1.csv"
unfolding quote
bare_test = refl
