-- ===== src/Base/Script/Binary.antt =====
-- What the script of `write_file` (src/llm_sandbox/providers/base.py) does to the destination when the
-- content is base64.
use llm_sandbox.Prelude.{
  ℕ, zero, suc, ◌≡◌, ◌≢◌, ◌⊎◌, inl, inr, refl, ap, ◌∙◌, false, none, some, Text, Bytes, All,
  text_eq, length,
}
use llm_sandbox.Python.Base64.{b64encode, IsByte}
use llm_sandbox.Base.Session.{base64}
use llm_sandbox.Base.Script.{
  mkdir_p, rm_f, base64_d, fail, one, group, and_then, or_else, write_script,
}
use llm_sandbox.Base.Script.Tools.{Shell, IsFile, IsLawful, Removes, linked, execute}
use llm_sandbox.Base.Script.Atomic.{Counted, received, made, counted}

module _ {W : Type 0} (sh : Shell W) (lawful : IsLawful sh) (i : Bytes) (w₀ : W) where
  -- After `base64 -d`: it ended well, and the destination is what the content stands for.
  abbrev Decoded : Bytes → Text → ℕ → ℕ × W → Type 0
  Decoded bs dest size r = r.0 ≡ 0 → (sh.content r.1 dest ≡ some bs) × (length i ≡ size)

  -- At the end: that, or the destination is gone.
  abbrev Resolved : Bytes → Text → ℕ → ℕ × W → Type 0
  Resolved bs dest size r = Decoded bs dest size r × (r.0 ≢ 0 → sh.content r.1 dest ≡ none)

  decoded :
      (bs : Bytes) (tmp dest : Text) (size : ℕ) (r : ℕ × W)
      → All IsByte bs
      → i ≡ b64encode bs
      → IsFile sh tmp
      → Counted sh lawful i w₀ tmp size r
      → Decoded bs dest size (linked sh and_then (one (base64_d tmp dest)) i r)
  decoded bs tmp dest size (zero, w) h e t (c, u) =
      λ z. (lawful.base64_d_writes tmp dest i bs w t.0 h ((c refl).0 ∙ ap some e) z, (c refl).1)
  decoded bs tmp dest size (suc n, w) h e t (c, u) = λ z. cc

  removed :
      (dest : Text) (w : W)
      → Removes sh
      → IsFile sh dest
      → sh.content (linked sh or_else (group (rm_f dest) fail) i (1, w)).1 dest ≡ none
  removed dest w rem d = lawful.fail_keeps dest i (sh.run (rm_f dest) i w).1 ∙ rem dest i w d

  resolved :
      (bs : Bytes) (dest : Text) (size : ℕ) (r : ℕ × W)
      → Removes sh
      → IsFile sh dest
      → Decoded bs dest size r
      → Resolved bs dest size (linked sh or_else (group (rm_f dest) fail) i r)
  resolved bs dest size (zero, w) rem d h = (h, λ n. absurd (n refl))
  resolved bs dest size (suc n, w) rem d h =
      (λ z. absurd (lawful.fail_fails i (sh.run (rm_f dest) i w).1 z), λ f. removed dest w rem d)

  closed_up :
      (bs : Bytes) (tmp dest : Text) (size : ℕ) (r : ℕ × W)
      → IsFile sh tmp
      → text_eq tmp dest ≡ false
      → Resolved bs dest size r
      → Resolved bs dest size (r.0, (sh.run (rm_f tmp) i r.1).1)
  closed_up bs tmp dest size r t n (h, k) = (
    λ z. (lawful.rm_f_keeps tmp dest i r.1 t n ∙ (h z).0, (h z).1),
    λ f. lawful.rm_f_keeps tmp dest i r.1 t n ∙ k f,
  )

  script-Resolved :
      (bs : Bytes) (parent tmp dest : Text) (size : ℕ)
      → Removes sh
      → All IsByte bs
      → i ≡ b64encode bs
      → IsFile sh tmp
      → IsFile sh dest
      → text_eq tmp dest ≡ false
      → Resolved bs dest size (execute sh (write_script base64 parent tmp dest size) i w₀)
  unfolding execute write_script
  script-Resolved bs parent tmp dest size rem h e t d n = closed_up bs tmp dest size _ t n (
      resolved bs dest size _ rem d (
        decoded bs tmp dest size _ h e t (
          counted sh lawful i w₀ tmp size _ (
            received sh lawful i w₀ tmp (sh.run (mkdir_p parent) i w₀)
              (made sh lawful i w₀ parent tmp)))))

  -- Where `rm -f` removes a file, and the base64 of `bs` reached the script whole, it exits with 0 and the destination holds `bs`,
  -- or it exits with another status and the destination is gone.
  pub write_script-base64 :
      (bs : Bytes) (parent tmp dest : Text) (size : ℕ)
      → Removes sh
      → All IsByte bs
      → i ≡ b64encode bs
      → IsFile sh tmp
      → IsFile sh dest
      → text_eq tmp dest ≡ false
      → let r = execute sh (write_script base64 parent tmp dest size) i w₀ in
        ((r.0 ≡ 0) × (sh.content r.1 dest ≡ some bs)) ⊎ ((r.0 ≢ 0) × (sh.content r.1 dest ≡ none))
  write_script-base64 bs parent tmp dest size rem h e t d n =
      either (execute sh (write_script base64 parent tmp dest size) i w₀)
        (script-Resolved bs parent tmp dest size rem h e t d n)
    where
      either :
          (r : ℕ × W)
          → Resolved bs dest size r
          → ((r.0 ≡ 0) × (sh.content r.1 dest ≡ some bs))
            ⊎ ((r.0 ≢ 0) × (sh.content r.1 dest ≡ none))
      either (zero, w) (g, k) = inl (refl, (g refl).0)
      either (suc m, w) (g, k) = let failed : suc m ≢ 0 = λ z. cc in inr (failed, k failed)

  cut :
      (tmp dest : Text) (size : ℕ) (r : ℕ × W)
      → Removes sh
      → IsFile sh dest
      → length i ≢ size
      → Counted sh lawful i w₀ tmp size r
      → let s =
          linked sh or_else
            (group (rm_f dest) fail)
            i
            (linked sh and_then (one (base64_d tmp dest)) i r) in
        (s.0 ≢ 0) × (sh.content s.1 dest ≡ none)
  cut tmp dest size (zero, w) rem d l (c, u) = absurd (l (c refl).1)
  cut tmp dest size (suc n, w) rem d l (c, u) =
      (lawful.fail_fails i (sh.run (rm_f dest) i w).1, removed dest w rem d)

  -- `&&` and `||` bind alike, so the clean-up after `||` runs whenever anything before it failed: if
  -- a part of the input is missing, the script fails and, where `rm -f` removes a file, the file that
  -- was at the destination is gone, whatever it held. The two names are no directories and begin
  -- with no dash.
  pub write_script-cut :
      (parent tmp dest : Text) (size : ℕ)
      → Removes sh
      → length i ≢ size
      → IsFile sh tmp
      → IsFile sh dest
      → text_eq tmp dest ≡ false
      → let r = execute sh (write_script base64 parent tmp dest size) i w₀ in
        (r.0 ≢ 0) × (sh.content r.1 dest ≡ none)
  unfolding execute write_script
  write_script-cut parent tmp dest size rem l t d n =
      let counts = counted sh lawful i w₀ tmp size _ (
        received sh lawful i w₀ tmp (sh.run (mkdir_p parent) i w₀)
          (made sh lawful i w₀ parent tmp)) in
      let (failed, gone) = cut tmp dest size _ rem d l counts in
      (failed, lawful.rm_f_keeps tmp dest i _ t n ∙ gone)
