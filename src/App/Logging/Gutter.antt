-- ===== src/App/Logging/Gutter.antt =====
-- The gutter before the lines that `_block` of src/llm_sandbox/app.py puts into the log.
use llm_sandbox.Prelude.{
  ℕ, ◌≡◌, ◌≢◌, refl, sym, Bool, true, false, List, [], ◌∷◌, ◌++◌, Text, codes, map, All, All-append,
}
use mathlib.Core.Path.{subst}
use llm_sandbox.Python.Strings.{join, splitlines, is_break, starts_with}
use llm_sandbox.Python.Strings.Lines.{Unbroken, splitlines-Unbroken, splitlines-join}
use llm_sandbox.Base.Session.{or_else}
use llm_sandbox.App.Logging.{block, preview, gutter}

abbrev guttered : List Text → List Text
guttered ls = map (λ line. gutter ++ line) ls

guttered-Unbroken : (ls : List Text) → All Unbroken ls → All Unbroken (guttered ls)
unfolding is_break
guttered-Unbroken [] h = tt
guttered-Unbroken (l ∷ ls) (p, h) =
    (All-append _ gutter l (refl, (refl, (refl, (refl, tt)))) p, guttered-Unbroken ls h)

guttered-ne-nil : (ls : List Text) → All (λ l. l ≢ []) (guttered ls)
guttered-ne-nil [] = tt
guttered-ne-nil (l ∷ ls) = (λ e. cc, guttered-ne-nil ls)

abbrev pub HasGutter : Text → Type 0
HasGutter line = starts_with gutter line ≡ true

guttered-HasGutter : (ls : List Text) → All HasGutter (guttered ls)
unfolding starts_with
guttered-HasGutter [] = tt
guttered-HasGutter (l ∷ ls) = (refl, guttered-HasGutter ls)

joined :
    (ls : List Text)
    → All Unbroken ls
    → All HasGutter (splitlines (or_else (join (codes "\n") (guttered ls)) gutter))
unfolding join splitlines starts_with
joined [] h = (refl, tt)
joined (l ∷ []) h =
    subst (All HasGutter)
      (sym (
        splitlines-join (guttered (l ∷ [])) (guttered-ne-nil (l ∷ []))
          (guttered-Unbroken (l ∷ []) h)))
      (guttered-HasGutter (l ∷ []))
joined (l ∷ m ∷ ls) h =
    subst (All HasGutter)
      (sym (
        splitlines-join (guttered (l ∷ m ∷ ls)) (guttered-ne-nil (l ∷ m ∷ ls))
          (guttered-Unbroken (l ∷ m ∷ ls) h)))
      (guttered-HasGutter (l ∷ m ∷ ls))

-- Whatever text a caller sends as a command or as code, with whatever line breaks, every line of
-- what `_block` makes of it begins with the gutter, so none of it can pass for a log line.
pub block-HasGutter :
    (shown : Bool) (text : Text) (cap : ℕ) → All HasGutter (splitlines (block shown text cap))
unfolding block splitlines starts_with
block-HasGutter false text cap = (refl, tt)
block-HasGutter true text cap =
    joined (splitlines (preview text cap)) (splitlines-Unbroken (preview text cap))
