-- ===== src/Python/Strings.antt =====
-- Methods of `str` and `bytes`. `lower` changes ASCII letters only.
pub mod Lines
pub mod Parts
use llm_sandbox.Prelude.{
  ℕ, ◌+◌, Bool, true, false, ◌&&◌, ◌||◌, List, [], ◌∷◌, ◌++◌, Text, Bytes, codes, leb, ◌==◌,
  if◌then◌else◌, all, ◌≡◌, refl, map,
}

-- `str.isspace` of one character.
unfoldable pub is_space : ℕ → Bool
is_space c =
    (leb 9 c && leb c 13)
    || (leb 28 c && leb c 32)
    || c == 133
    || c == 160
    || c == 5760
    || (leb 8192 c && leb c 8202)
    || (c == 8232 || c == 8233 || c == 8239 || c == 8287 || c == 12288)

module _ (p : ℕ → Bool) where
  unfoldable pub lstrip_if : Text → Text
  lstrip_if [] = []
  lstrip_if (c ∷ cs) = let rest = lstrip_if cs in if p c then rest else c ∷ cs

  unfoldable pub rstrip_if : Text → Text
  rstrip_if [] = []
  rstrip_if (c ∷ cs) = elim (rstrip_if cs) [ [] ↦ if p c then [] else c ∷ [] | d ∷ ds ↦ c ∷ d ∷ ds ]

-- `s.strip()`
unfoldable pub strip : Text → Text
unfolding is_space lstrip_if rstrip_if
strip s = rstrip_if is_space (lstrip_if is_space s)

abbrev is_space_byte : ℕ → Bool
is_space_byte c = (leb 9 c && leb c 13) || c == 32

-- `b.strip()` of bytes: ASCII white space only.
unfoldable pub strip_bytes : Bytes → Bytes
unfolding lstrip_if rstrip_if
strip_bytes b = rstrip_if is_space_byte (lstrip_if is_space_byte b)

-- `s.strip(c)` at a single character
unfoldable pub strip_char : ℕ → Text → Text
unfolding lstrip_if rstrip_if
strip_char d s = rstrip_if (λ c. c == d) (lstrip_if (λ c. c == d) s)

-- `s.partition(sep)`: the middle part is the separator or empty, here whether it was found.
unfoldable pub partition : ℕ → Text → Text × Bool × Text
partition sep [] = ([], false, [])
partition sep (c ∷ cs) =
    let (before, found, after) = partition sep cs in
    if c == sep then ([], true, cs) else (c ∷ before, found, after)

-- `s.rpartition(sep)`: with no separator, everything is behind it.
unfoldable pub rpartition : ℕ → Text → Text × Bool × Text
rpartition sep [] = ([], false, [])
rpartition sep (c ∷ cs) =
    let (before, found, after) = rpartition sep cs in
    if found
    then (c ∷ before, true, after)
    else if c == sep
    then ([], true, cs)
    else ([], false, c ∷ after)

abbrev onto : ℕ → List Text → List Text
onto c [] = (c ∷ []) ∷ []
onto c (part ∷ parts) = (c ∷ part) ∷ parts

-- `s.split(sep)` at a single character
unfoldable pub split : ℕ → Text → List Text
split sep [] = [] ∷ []
split sep (c ∷ cs) = let rest = split sep cs in if c == sep then [] ∷ rest else onto c rest

abbrev pub flush : Text → List Text → List Text
flush [] parts = parts
flush (c ∷ cs) parts = (c ∷ cs) ∷ parts

-- The words of `s.split()`, with the word that ends where `s` begins.
unfoldable pub words_of : Text → Text × List Text
words_of [] = ([], [])
words_of (c ∷ cs) =
    let (word, rest) = words_of cs in if is_space c then ([], flush word rest) else (c ∷ word, rest)

-- `s.split()`
unfoldable pub words : Text → List Text
unfolding is_space words_of
words s = let (word, rest) = words_of s in flush word rest

-- `s.startswith(prefix)`
unfoldable pub starts_with : Text → Text → Bool
starts_with [] s = true
starts_with (p ∷ ps) [] = false
starts_with (p ∷ ps) (c ∷ cs) = p == c && starts_with ps cs

-- `part in s`
unfoldable pub contains : Text → Text → Bool
unfolding starts_with
contains part [] = starts_with part []
contains part (c ∷ cs) = starts_with part (c ∷ cs) || contains part cs

-- `s.lower()`
unfoldable pub lower : Text → Text
lower s = map (λ c. if leb b'A' c && leb c b'Z' then c + 32 else c) s

-- `sep.join(parts)`
unfoldable pub join : Text → List Text → Text
join sep [] = []
join sep (p ∷ []) = p
join sep (p ∷ q ∷ ps) = p ++ (sep ++ join sep (q ∷ ps))

-- `posixpath.dirname(p)`
unfoldable pub dirname : Text → Text
unfolding rpartition rstrip_if
dirname p =
    let (before, found, after) = rpartition b'/' p in
    if found
    then (let top = before ++ b'/' ∷ [] in
        if all (λ c. c == b'/') top then top else rstrip_if (λ c. c == b'/') top)
    else []

-- What ends a line for `s.splitlines()`.
unfoldable pub is_break : ℕ → Bool
is_break c =
    (leb 10 c && leb c 13) || (leb 28 c && leb c 30) || (c == 133 || c == 8232 || c == 8233)

abbrev starts_lf : Text → Bool
starts_lf [] = false
starts_lf (c ∷ cs) = c == 10

-- A carriage return before a line feed ends no line of its own.
pub join_crlf : Text → Text
join_crlf [] = []
join_crlf (c ∷ cs) = let rest = join_crlf cs in if c == 13 && starts_lf cs then rest else c ∷ rest

pub lines_of : Text → List Text
lines_of [] = []
lines_of (c ∷ cs) = let rest = lines_of cs in if is_break c then [] ∷ rest else onto c rest

-- `s.splitlines()`
unfoldable pub splitlines : Text → List Text
unfolding is_break join_crlf lines_of
splitlines s = lines_of (join_crlf s)

splitlines_test : splitlines (codes "a\r\nb\n\nc") ≡ codes "a" ∷ codes "b" ∷ [] ∷ codes "c" ∷ []
unfolding splitlines
splitlines_test = refl

dirname_test :
    (dirname (codes "/workspace/a/b.csv") ≡ codes "/workspace/a")
    × (dirname (codes "b.csv") ≡ [])
    × (dirname (codes "//x") ≡ codes "//")
unfolding dirname
dirname_test = (refl, refl, refl)

strings_test :
    (strip (codes "  a b ") ≡ codes "a b")
    × (split b',' (codes "a,,b") ≡ codes "a" ∷ [] ∷ codes "b" ∷ [])
    × (partition b'=' (codes "k=v=w") ≡ (codes "k", true, codes "v=w"))
    × (rpartition b':' (codes "a:b:c") ≡ (codes "a:b", true, codes "c"))
    × (rpartition b':' (codes "abc") ≡ ([], false, codes "abc"))
    × (contains (codes "not") (codes "is not running") ≡ true)
unfolding strip split partition rpartition contains
strings_test = (refl, refl, refl, refl, refl, refl)
