-- ===== src/Base/Script/Running.antt =====
-- What the script of `run_script` (src/llm_sandbox/providers/base.py) runs, wherever its input is cut.
use llm_sandbox.Prelude.{
  ℕ, zero, suc, ◌≡◌, ◌≢◌, ◌⊎◌, inl, inr, refl, ap, ◌∙◌, false, none, some, Text, Bytes, text_eq,
  length,
}
use llm_sandbox.Base.Session.{workspace}
use llm_sandbox.Base.Script.{cat_to, rm_f, cd_to, timed, one, and_then, run_of}
use llm_sandbox.Base.Script.Tools.{Shell, IsFile, IsLawful, Removes, linked, execute}
use llm_sandbox.Base.Script.Atomic.{Untouched, Received, Counted, counted}

module _ {W : Type 0} (sh : Shell W) (lawful : IsLawful sh) (i : Bytes) (w₀ : W) (path : Text)
    (size seconds : ℕ) (interpreter : Text) where
  -- The interpreter ran, in a world where the file is the whole of the input, and the exit status is
  -- its own.
  abbrev pub Ran : ℕ × W → Type 0
  Ran r =
      (w : W) × (sh.content w path ≡ some i)
      × (length i ≡ size)
      × (r ≡ sh.run (timed seconds interpreter path) i w)

  -- An earlier command failed, and no file but the script's is touched.
  abbrev pub Stopped : ℕ × W → Type 0
  Stopped r = (r.0 ≢ 0) × Untouched sh lawful i w₀ path r.1

  catted : Received sh lawful i w₀ path (sh.run (cat_to path) i w₀)
  catted = (lawful.cat_to_writes path i w₀, λ q n. lawful.cat_to_keeps path q i w₀ n)

  in_workspace :
      (r : ℕ × W)
      → Counted sh lawful i w₀ path size r
      → Counted sh lawful i w₀ path size (linked sh and_then (one (cd_to workspace)) i r)
  in_workspace (zero, w) (c, h) = (
    λ e. let (whole, fits) = c refl in (lawful.cd_to_keeps workspace path i w ∙ whole, fits),
    λ q n. lawful.cd_to_keeps workspace q i w ∙ h q n,
  )
  in_workspace (suc n, w) (c, h) = (λ e. cc, h)

  last_step :
      (r : ℕ × W)
      → Counted sh lawful i w₀ path size r
      → let r' = linked sh and_then (one (timed seconds interpreter path)) i r in
        Ran r' ⊎ Stopped r'
  last_step (zero, w) (c, h) = let (whole, fits) = c refl in inl (w, whole, fits, refl)
  last_step (suc n, w) (c, h) = inr (λ e. cc, h)

  -- How the script ends: with the interpreter's status and its world without the script, or with the
  -- failure of an earlier command and every other file as it was.
  abbrev pub Ended : Text → ℕ × W → Type 0
  Ended other r =
      ((w : W) × (sh.content w path ≡ some i)
        × (length i ≡ size)
        × (r.0 ≡ (sh.run (timed seconds interpreter path) i w).0)
        × (r.1 ≡ (sh.run (rm_f path) i (sh.run (timed seconds interpreter path) i w).1).1))
      ⊎ ((r.0 ≢ 0) × (sh.content r.1 path ≡ none) × (sh.content r.1 other ≡ sh.content w₀ other))

  ended :
      (other : Text) (r : ℕ × W)
      → Removes sh
      → IsFile sh path
      → text_eq path other ≡ false
      → Ran r ⊎ Stopped r
      → Ended other (r.0, (sh.run (rm_f path) i r.1).1)
  ended other r rem d n (inl (w, whole, fits, e)) = inl (
    w,
    whole,
    fits,
    ap (λ (s : ℕ × W). s.0) e,
    ap (λ (s : ℕ × W). (sh.run (rm_f path) i s.1).1) e,
  )
  ended other r rem d n (inr (failed, h)) =
      inr (failed, rem path i r.1 d, lawful.rm_f_keeps path other i r.1 d n ∙ h other n)

  -- Where `rm -f` removes the script's file, which is no directory and begins with no dash: whatever
  -- part `i` of its input reaches the script, and whichever other command fails, the interpreter
  -- runs only on a file that holds exactly `i`, of the size that was announced, and then its status
  -- is the script's; or the script fails with its file removed and every other file as it was.
  pub run_of-Ended :
      (other : Text)
      → Removes sh
      → IsFile sh path
      → text_eq path other ≡ false
      → Ended other (execute sh (run_of path size seconds interpreter) i w₀)
  unfolding execute run_of
  run_of-Ended other rem d n =
      ended other _ rem d n
        (last_step _ (in_workspace _ (counted sh lawful i w₀ path size _ catted)))
