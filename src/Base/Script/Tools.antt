-- ===== src/Base/Script/Tools.antt =====
-- The commands of a session's shell (the scripts of src/llm_sandbox/providers/base.py) as a
-- parameter: what they do to files, as far as the scripts rely on it. Of the program that an
-- interpreter runs nothing is known.
use llm_sandbox.Prelude.{
  ℕ, zero, suc, ◌≡◌, ◌≢◌, Bool, true, false, List, [], ◌∷◌, Option, none, some, Text, Bytes, codes,
  text_eq, length, All,
}
use llm_sandbox.Python.Strings.{starts_with}
use llm_sandbox.Python.Base64.{b64encode, IsByte}
use llm_sandbox.Base.Script.{
  Command, mkdir_p, cat_to, rm_f, wc_is, mv_f, base64_d, cd_to, fail, Node, one, group, Link,
  and_then, or_else, Script,
}

pub record Shell (W : Type 0) : Type 0 where
  -- a command with this input: its exit status, and the world after it
  pub run : Command → Bytes → W → ℕ × W
  pub content : W → Text → Option Bytes
  -- the names that no directory has
  pub is_plain : Text → Bool

-- A name that a command takes for an operand: it begins with no dash.
abbrev pub IsOperand : Text → Type 0
IsOperand name = starts_with (codes "-") name ≡ false

-- A file of its own: an operand, and no directory.
abbrev pub IsFile : {W : Type 0} → Shell W → Text → Type 0
IsFile sh name = IsOperand name × (sh.is_plain name ≡ true)

-- What the manuals say of the commands. Each may fail, as on a full disk, `rm -f` too; `mv` within a
-- directory renames, so a failed one has done nothing. A file is known by the text of its name: that
-- two names can be the same file (links, `..`) is left out.
pub record IsLawful {W : Type 0} (sh : Shell W) : Type 0 where
  pub mkdir_p_keeps :
      (p q : Text) (i : Bytes) (w : W) → sh.content (sh.run (mkdir_p p) i w).1 q ≡ sh.content w q
  pub cat_to_writes :
      (p : Text) (i : Bytes) (w : W)
      → (sh.run (cat_to p) i w).0 ≡ 0
      → sh.content (sh.run (cat_to p) i w).1 p ≡ some i
  pub cat_to_keeps :
      (p q : Text) (i : Bytes) (w : W)
      → text_eq p q ≡ false
      → sh.content (sh.run (cat_to p) i w).1 q ≡ sh.content w q
  pub wc_is_counts :
      (p : Text) (n : ℕ) (i bs : Bytes) (w : W)
      → sh.content w p ≡ some bs
      → (sh.run (wc_is p n) i w).0 ≡ 0
      → length bs ≡ n
  pub wc_is_keeps :
      (p q : Text) (n : ℕ) (i : Bytes) (w : W)
      → sh.content (sh.run (wc_is p n) i w).1 q ≡ sh.content w q
  pub mv_f_renames :
      (p q : Text) (i : Bytes) (w : W)
      → IsFile sh p
      → IsFile sh q
      → (sh.run (mv_f p q) i w).0 ≡ 0
      → sh.content (sh.run (mv_f p q) i w).1 q ≡ sh.content w p
  pub mv_f_fails :
      (p q r : Text) (i : Bytes) (w : W)
      → (sh.run (mv_f p q) i w).0 ≢ 0
      → sh.content (sh.run (mv_f p q) i w).1 r ≡ sh.content w r
  pub mv_f_keeps :
      (p q r : Text) (i : Bytes) (w : W)
      → IsFile sh p
      → IsFile sh q
      → text_eq p r ≡ false
      → text_eq q r ≡ false
      → sh.content (sh.run (mv_f p q) i w).1 r ≡ sh.content w r
  pub base64_d_writes :
      (p q : Text) (i bs : Bytes) (w : W)
      → IsOperand p
      → All IsByte bs
      → sh.content w p ≡ some (b64encode bs)
      → (sh.run (base64_d p q) i w).0 ≡ 0
      → sh.content (sh.run (base64_d p q) i w).1 q ≡ some bs
  pub base64_d_keeps :
      (p q r : Text) (i : Bytes) (w : W)
      → text_eq q r ≡ false
      → sh.content (sh.run (base64_d p q) i w).1 r ≡ sh.content w r
  pub rm_f_removes :
      (p : Text) (i : Bytes) (w : W)
      → IsFile sh p
      → (sh.run (rm_f p) i w).0 ≡ 0
      → sh.content (sh.run (rm_f p) i w).1 p ≡ none
  pub rm_f_keeps :
      (p q : Text) (i : Bytes) (w : W)
      → IsFile sh p
      → text_eq p q ≡ false
      → sh.content (sh.run (rm_f p) i w).1 q ≡ sh.content w q
  pub cd_to_keeps :
      (p q : Text) (i : Bytes) (w : W) → sh.content (sh.run (cd_to p) i w).1 q ≡ sh.content w q
  pub fail_fails : (i : Bytes) (w : W) → (sh.run fail i w).0 ≢ 0
  pub fail_keeps :
      (q : Text) (i : Bytes) (w : W) → sh.content (sh.run fail i w).1 q ≡ sh.content w q

-- `rm -f` of a file removes it, as in a directory that may be written.
abbrev pub Removes : {W : Type 0} → Shell W → Type 0
Removes {W} sh =
    (p : Text) (i : Bytes) (w : W) → IsFile sh p → sh.content (sh.run (rm_f p) i w).1 p ≡ none

module _ {W : Type 0} (sh : Shell W) where
  abbrev pub run_node : Node → Bytes → W → ℕ × W
  run_node (one c) i w = sh.run c i w
  run_node (group a b) i w = sh.run b i (sh.run a i w).1

  -- One link of an and-or list, after the status so far.
  abbrev pub linked : Link → Node → Bytes → ℕ × W → ℕ × W
  linked and_then node i (zero, w) = run_node node i w
  linked and_then node i (suc n, w) = (suc n, w)
  linked or_else node i (zero, w) = (zero, w)
  linked or_else node i (suc n, w) = run_node node i w

  abbrev pub follow : List (Link × Node) → Bytes → ℕ × W → ℕ × W
  follow [] i r = r
  follow ((link, node) ∷ links) i r = follow links i (linked link node i r)

  abbrev closed : Command → Bytes → ℕ × W → ℕ × W
  closed c i (status, w) = (status, (sh.run c i w).1)

  -- A script with this input: the status that it exits with, and the world after it.
  unfoldable pub execute : Script → Bytes → W → ℕ × W
  execute s i w = closed s.cleanup i (follow s.links i (sh.run s.first i w))
