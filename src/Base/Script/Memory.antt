-- ===== src/Base/Script/Memory.antt =====
-- A shell over files in memory, in which every command of `write_file`'s script succeeds where its
-- files are there: it shows that the laws can hold, and serves the examples.
use llm_sandbox.Prelude.{
  ℕ, ◌≡◌, ◌≢◌, refl, ap, ◌∙◌, arith, true, false, Option, none, some, Text, Bytes, text_eq,
  text_eq_refl, length, All, if◌then◌else◌, ◌==◌,
}
use llm_sandbox.Python.Base64.{b64encode, b64decode, IsByte, b64decode-b64encode}
use llm_sandbox.Base.Script.{
  [], Command, mkdir_p, cat_to, rm_f, wc_is, mv_f, base64_d, cd_to, timed, fail,
}
use llm_sandbox.Base.Script.Tools.{Shell, IsLawful, Removes}

abbrev pub Files : Type 0
Files = Text → Option Bytes

abbrev put : Text → Option Bytes → Files → Files
put name v files q = if text_eq name q then v else files q

abbrev sized : ℕ → Option Bytes → ℕ
sized n none = 1
sized n (some bs) = if length bs == n then 0 else 1

abbrev renamed : Text → Text → Option Bytes → Files → ℕ × Files
renamed p q none files = (1, files)
renamed p q (some bs) files = (0, put q (some bs) (put p none files))

abbrev decoded : Text → Option Bytes → Files → ℕ × Files
decoded q none files = (1, put q (some []) files)
decoded q (some bs) files = (0, put q (some (b64decode bs)) files)

abbrev pub memory_run : Command → Bytes → Files → ℕ × Files
memory_run (mkdir_p p) i files = (0, files)
memory_run (cat_to p) i files = (0, put p (some i) files)
memory_run (rm_f p) i files = (0, put p none files)
memory_run (wc_is p n) i files = (sized n (files p), files)
memory_run (mv_f p q) i files = renamed p q (files p) files
memory_run (base64_d p q) i files = decoded q (files p) files
memory_run (cd_to p) i files = (0, files)
memory_run (timed seconds interpreter p) i files = (0, files)
memory_run fail i files = (1, files)

abbrev pub memory : Shell Files
memory = record { run = memory_run; content = λ files name. files name; is_plain = λ name. true }

put_self : (p : Text) (v : Option Bytes) (files : Files) → put p v files p ≡ v
put_self p v files = rw (text_eq_refl p)

put_other :
    (p q : Text) (v : Option Bytes) (files : Files)
    → text_eq p q ≡ false
    → put p v files q ≡ files q
put_other p q v files h = rw h

sized_lem : (n : ℕ) (o : Option Bytes) (bs : Bytes) → o ≡ some bs → sized n o ≡ 0 → length bs ≡ n
sized_lem n o bs e h = ground arith

renamed_to :
    (p q : Text) (o : Option Bytes) (w : Files)
    → (renamed p q o w).0 ≡ 0
    → (renamed p q o w).1 q ≡ o
renamed_to p q none w h = cc
renamed_to p q (some bs) w h = put_self q (some bs) (put p none w)

renamed_fails :
    (p q r : Text) (o : Option Bytes) (w : Files)
    → (renamed p q o w).0 ≢ 0
    → (renamed p q o w).1 r ≡ w r
renamed_fails p q r none w h = refl
renamed_fails p q r (some bs) w h = absurd (h refl)

renamed_other :
    (p q r : Text) (o : Option Bytes) (w : Files)
    → text_eq p r ≡ false
    → text_eq q r ≡ false
    → (renamed p q o w).1 r ≡ w r
renamed_other p q r none w h k = refl
renamed_other p q r (some bs) w h k =
    put_other q r (some bs) (put p none w) k ∙ put_other p r none w h

decoded_to :
    (q : Text) (o : Option Bytes) (bs : Bytes) (w : Files)
    → All IsByte bs
    → o ≡ some (b64encode bs)
    → (decoded q o w).1 q ≡ some bs
decoded_to q none bs w h e = cc
decoded_to q (some t) bs w h e =
    let same : t ≡ b64encode bs = cc in
    put_self q (some (b64decode t)) w ∙ ap some (ap b64decode same ∙ b64decode-b64encode bs h)

decoded_other :
    (q r : Text) (o : Option Bytes) (w : Files) → text_eq q r ≡ false → (decoded q o w).1 r ≡ w r
decoded_other q r none w h = put_other q r (some []) w h
decoded_other q r (some bs) w h = put_other q r (some (b64decode bs)) w h

pub memory-IsLawful : IsLawful memory
memory-IsLawful = record {
  mkdir_p_keeps = λ p q i w. refl;
  cat_to_writes = λ p i w h. put_self p (some i) w;
  cat_to_keeps = λ p q i w h. put_other p q (some i) w h;
  wc_is_counts = λ p n i bs w e h. sized_lem n (w p) bs e h;
  wc_is_keeps = λ p q n i w. refl;
  mv_f_renames = λ p q i w t d h. renamed_to p q (w p) w h;
  mv_f_fails = λ p q r i w h. renamed_fails p q r (w p) w h;
  mv_f_keeps = λ p q r i w t d h k. renamed_other p q r (w p) w h k;
  base64_d_writes = λ p q i bs w t h e z. decoded_to q (w p) bs w h e;
  base64_d_keeps = λ p q r i w h. decoded_other q r (w p) w h;
  rm_f_removes = λ p i w h z. put_self p none w;
  rm_f_keeps = λ p q i w h n. put_other p q none w n;
  cd_to_keeps = λ p q i w. refl;
  fail_fails = λ i w h. cc;
  fail_keeps = λ q i w. refl;
}

pub memory-Removes : Removes memory
memory-Removes = λ p i w h. put_self p none w
