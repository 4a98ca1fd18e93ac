-- ===== src/Base/Script/Atomic.antt =====
-- What the script of `write_file` (src/llm_sandbox/providers/base.py) does to the files when the
-- content is text, wherever its input is cut.
use llm_sandbox.Prelude.{
  ℕ, zero, suc, ◌≡◌, ◌≢◌, ◌⊎◌, inl, inr, refl, ap, ◌∙◌, false, none, some, Text, Bytes, text_eq,
  length,
}
use llm_sandbox.Base.Session.{utf8}
use llm_sandbox.Base.Script.{mkdir_p, cat_to, rm_f, wc_is, mv_f, one, and_then, write_script}
use llm_sandbox.Base.Script.Tools.{Shell, IsFile, IsLawful, linked, execute}

zero-cases : (n : ℕ) → (n ≡ 0) ⊎ (n ≢ 0)
zero-cases zero = inl refl
zero-cases (suc n) = inr (λ e. cc)

module _ {W : Type 0} (sh : Shell W) (lawful : IsLawful sh) (i : Bytes) (w₀ : W) where
  -- Every file but this one is as it was.
  abbrev pub Untouched : Text → W → Type 0
  Untouched tmp w = (q : Text) → text_eq tmp q ≡ false → sh.content w q ≡ sh.content w₀ q

  abbrev pub Received : Text → ℕ × W → Type 0
  Received tmp r = (r.0 ≡ 0 → sh.content r.1 tmp ≡ some i) × Untouched tmp r.1

  abbrev pub Counted : Text → ℕ → ℕ × W → Type 0
  Counted tmp size r =
      (r.0 ≡ 0 → (sh.content r.1 tmp ≡ some i) × (length i ≡ size)) × Untouched tmp r.1

  pub made : (parent tmp : Text) → Untouched tmp (sh.run (mkdir_p parent) i w₀).1
  made parent tmp q h = lawful.mkdir_p_keeps parent q i w₀

  pub received :
      (tmp : Text) (r : ℕ × W)
      → Untouched tmp r.1
      → Received tmp (linked sh and_then (one (cat_to tmp)) i r)
  received tmp (zero, w) h =
      (lawful.cat_to_writes tmp i w, λ q n. lawful.cat_to_keeps tmp q i w n ∙ h q n)
  received tmp (suc n, w) h = (λ e. cc, h)

  pub counted :
      (tmp : Text) (size : ℕ) (r : ℕ × W)
      → Received tmp r
      → Counted tmp size (linked sh and_then (one (wc_is tmp size)) i r)
  counted tmp size (zero, w) (c, h) = (
    λ e. (
      lawful.wc_is_keeps tmp tmp size i w ∙ c refl,
      lawful.wc_is_counts tmp size i i w (c refl) e,
    ),
    λ q n. lawful.wc_is_keeps tmp q size i w ∙ h q n,
  )
  counted tmp size (suc n, w) (c, h) = (λ e. cc, h)

  -- The file at the destination is whole, or it is the one that was there.
  abbrev pub Settled : Text → ℕ → ℕ × W → Type 0
  Settled dest size r =
      ((r.0 ≡ 0) × (sh.content r.1 dest ≡ some i) × (length i ≡ size))
      ⊎ ((r.0 ≢ 0) × (sh.content r.1 dest ≡ sh.content w₀ dest))

  abbrev pub Others : Text → Text → W → Type 0
  Others tmp dest w =
      (q : Text) → text_eq tmp q ≡ false → text_eq dest q ≡ false → sh.content w q ≡ sh.content w₀ q

  moved :
      (tmp dest : Text) (size : ℕ) (r : ℕ × W)
      → IsFile sh tmp
      → IsFile sh dest
      → text_eq tmp dest ≡ false
      → Counted tmp size r
      → Settled dest size (linked sh and_then (one (mv_f tmp dest)) i r)
        × Others tmp dest (linked sh and_then (one (mv_f tmp dest)) i r).1
  moved tmp dest size (zero, w) t d n (c, h) = (
    settled (sh.run (mv_f tmp dest) i w) refl,
    λ q a b. lawful.mv_f_keeps tmp dest q i w t d a b ∙ h q a,
  )
    where
      settled :
          (r : ℕ × W)
          → sh.run (mv_f tmp dest) i w ≡ r
          → Settled dest size (sh.run (mv_f tmp dest) i w)
      settled (zero, w') e = inl (
        ap (λ r. r.0) e,
        lawful.mv_f_renames tmp dest i w t d (ap (λ r. r.0) e) ∙ (c refl).0,
        (c refl).1,
      )
      settled (suc m, w') e =
          let failed : (sh.run (mv_f tmp dest) i w).0 ≢ 0 = λ z. cc in
          inr (failed, lawful.mv_f_fails tmp dest dest i w failed ∙ h dest n)
  moved tmp dest size (suc m, w) t d n (c, h) = (inr (λ z. cc, h dest n), λ q a b. h q a)

  -- The temporary file is gone, or the last `rm -f` failed.
  abbrev pub Cleaned : Text → W → Type 0
  Cleaned tmp w =
      (sh.content w tmp ≡ none)
      ⊎ ((v : W) × ((sh.run (rm_f tmp) i v).0 ≢ 0) × (w ≡ (sh.run (rm_f tmp) i v).1))

  cleaned : (tmp : Text) (v : W) → IsFile sh tmp → Cleaned tmp (sh.run (rm_f tmp) i v).1
  cleaned tmp v t = elim (zero-cases (sh.run (rm_f tmp) i v).0) [
    | inl well ↦ inl (lawful.rm_f_removes tmp i v t well)
    | inr failed ↦ inr (v, failed, refl)
  ]

  closing :
      (tmp dest : Text) (size : ℕ) (r : ℕ × W)
      → IsFile sh tmp
      → text_eq tmp dest ≡ false
      → Settled dest size r × Others tmp dest r.1
      → Settled dest size (r.0, (sh.run (rm_f tmp) i r.1).1)
        × Cleaned tmp (sh.run (rm_f tmp) i r.1).1
        × Others tmp dest (sh.run (rm_f tmp) i r.1).1
  closing tmp dest size r t n (inl (z, c, l), o) = (
    inl (z, lawful.rm_f_keeps tmp dest i r.1 t n ∙ c, l),
    cleaned tmp r.1 t,
    λ q a b. lawful.rm_f_keeps tmp q i r.1 t a ∙ o q a b,
  )
  closing tmp dest size r t n (inr (z, c), o) = (
    inr (z, lawful.rm_f_keeps tmp dest i r.1 t n ∙ c),
    cleaned tmp r.1 t,
    λ q a b. lawful.rm_f_keeps tmp q i r.1 t a ∙ o q a b,
  )

  pub script-Settled :
      (parent tmp dest : Text) (size : ℕ)
      → IsFile sh tmp
      → IsFile sh dest
      → text_eq tmp dest ≡ false
      → let r = execute sh (write_script utf8 parent tmp dest size) i w₀ in
        Settled dest size r × Cleaned tmp r.1 × Others tmp dest r.1
  unfolding execute write_script
  script-Settled parent tmp dest size t d n = closing tmp dest size _ t n (
      moved tmp dest size _ t d n
        (counted tmp size _ (received tmp (sh.run (mkdir_p parent) i w₀) (made parent tmp))))
