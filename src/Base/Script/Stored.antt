-- ===== src/Base/Script/Stored.antt =====
-- `write_file` and then `read_file` of `SessionOpsMixin` (src/llm_sandbox/providers/base.py), over a
-- transport that has the session's shell run the script.
use llm_sandbox.Prelude.{
  ℕ, zero, suc, ◌≤◌, ◌≡◌, ◌≢◌, inl, inr, refl, sym, ap, ◌∙◌, arith, Bool, true, false, [], ◌∷◌,
  ◌++◌, some, Text, Bytes, codes, All, text_eq, length, take, ltb, take_all,
}
use llm_sandbox.Prelude.Int.{pos}
use llm_sandbox.Python.Strings.{dirname, strip, starts_with}
use llm_sandbox.Python.Utf8.{encode, decode}
use llm_sandbox.Python.Utf8.RoundTrip.{IsScalar, decode_strict-encode}
use llm_sandbox.Base.Errors.{ok, raised, after, sandbox_error}
use llm_sandbox.Base.Session.{
  Transport, Encoding, utf8, write_call, read_call, read_limit, write_file, read_file, present,
  or_else, workspace,
}
use llm_sandbox.Base.Session.Results.{take-take-suc, over-take-suc}
use llm_sandbox.Base.Script.{Script, write_script}
use llm_sandbox.Base.Script.Tools.{Shell, IsFile, IsOperand, IsLawful, execute}
use llm_sandbox.Base.Script.Atomic.{script-Settled}

-- The temporary name of one call.
abbrev pub partial : Text → Text → Text
partial random path = path ++ (codes ".partial-" ++ random)

-- The script of one call of `write_file`.
abbrev pub script_of : Encoding → Text → Text → Text → Script
script_of encoding random path content =
    write_script encoding (or_else (dirname path) workspace) (partial random path) path
      (length (encode content))

longer : (path s : Text) (c : ℕ) → text_eq (path ++ c ∷ s) path ≡ false
longer [] s c = refl
longer (d ∷ path) s c = ground (arith, longer path s c)

partial-IsOperand :
    (random path : Text) → path ≢ [] → IsOperand path → IsOperand (partial random path)
unfolding starts_with
partial-IsOperand random [] n h = absurd (n refl)
partial-IsOperand random (c ∷ cs) n h = h

take-whole : (n : ℕ) (xs : Bytes) → length (take n xs) ≡ length xs → take n xs ≡ xs
take-whole zero [] h = refl
take-whole zero (x ∷ xs) h = absurd (omega (arith, h))
take-whole (suc n) [] h = refl
take-whole (suc n) (x ∷ xs) h = ap (◌∷◌ x) (take-whole n xs (omega (arith, h)))

not_over : (n m : ℕ) → m ≤ n → ltb n m ≡ false
not_over n m h = ground arith

present-encode :
    (content : Text) (truncated : Bool)
    → All IsScalar content
    → present (encode content) truncated
      ≡ record { text = content; encoding = utf8; truncated = truncated }
unfolding present
present-encode content truncated h = rw (decode_strict-encode content h, present) refl

module _ {W : Type 0} (t : Transport W) (sh : Shell W) (lawful : IsLawful sh) where
  exited_well :
      (random sid path content : Text) (encoding : Encoding) (status : ℕ) (out err : Bytes)
      (w w' : W)
      → t.exec_cli sid (write_call random path content encoding) w
        ≡ (ok (record { rc = pos status; out = out; err = err }), w')
      → (write_file t random sid path content encoding w).0 ≡ ok tt
      → status ≡ 0
  unfolding write_file
  exited_well random sid path content encoding zero out err w w' e h = refl
  exited_well random sid path content encoding (suc n) out err w w' e h =
      let failed : (write_file t random sid path content encoding w).0
          ≡ raised (sandbox_error (codes "write_file failed: " ++ strip (decode err))) =
        rw (e, after) refl in
      cc

  -- What an exit status of 0 says of the destination.
  stored :
      (random path content : Text) (n status : ℕ) (w w1 : W)
      → path ≢ []
      → IsFile sh path
      → sh.is_plain (partial random path) ≡ true
      → execute sh (script_of utf8 random path content) (take n (encode content)) w ≡ (status, w1)
      → status ≡ 0
      → sh.content w1 path ≡ some (encode content)
  stored random path content n status w w1 nonempty file plain ran z =
      let whole =
        (script-Settled sh lawful (take n (encode content)) w (or_else (dirname path) workspace)
          (partial random path) path (length (encode content))
          (partial-IsOperand random path nonempty file.0, plain) file
          (longer path (codes "partial-" ++ random) b'.')).0 in
      elim whole [
        | inl (ended, there, size) ↦
            ap (λ r. sh.content r.1 path) (sym ran)
            ∙ there
            ∙ ap some (take-whole n (encode content) size)
        | inr (failed, kept) ↦ absurd (failed (ap (λ r. r.0) ran ∙ z))
      ]

  read_back :
      (sid path content : Text) (max_bytes : ℕ) (err : Bytes) (w w' : W)
      → All IsScalar content
      → length (encode content) ≤ read_limit max_bytes t.max_output_bytes
      → t.exec_cli sid (read_call path (read_limit max_bytes t.max_output_bytes)) w ≡ (
        ok (record {
          rc = pos 0;
          out = take (suc (read_limit max_bytes t.max_output_bytes)) (encode content);
          err = err;
        }),
        w',
      )
      → read_file t sid path max_bytes w
        ≡ (ok (record { text = content; encoding = utf8; truncated = false }), w')
  unfolding read_file
  read_back sid path content max_bytes err w w' scalar fits e =
      let limit = read_limit max_bytes t.max_output_bytes in
      rw (e, after)
        (rw (take-take-suc limit (encode content), over-take-suc limit (encode content))
          (rw (take_all limit (encode content) fits, not_over limit (length (encode content)) fits)
            (ap (λ c. (ok c, w')) (present-encode content false scalar))))

  -- A `write_file` that returned, of which any part of the input may have been lost on the way, and a
  -- `read_file` of that path whose limit is no smaller than the content give the content back, as
  -- text and whole; the shell runs the script, and `head -c` gives the first bytes of the file.
  pub read_file-write_file :
      (random sid path content : Text) (n max_bytes status : ℕ) (out err err' : Bytes) (w w1 w2 : W)
      → path ≢ []
      → IsFile sh path
      → sh.is_plain (partial random path) ≡ true
      → All IsScalar content
      → length (encode content) ≤ read_limit max_bytes t.max_output_bytes
      → execute sh (script_of utf8 random path content) (take n (encode content)) w ≡ (status, w1)
      → t.exec_cli sid (write_call random path content utf8) w
        ≡ (ok (record { rc = pos status; out = out; err = err }), w1)
      → ((file : Bytes)
          → sh.content w1 path ≡ some file
          → t.exec_cli sid (read_call path (read_limit max_bytes t.max_output_bytes)) w1 ≡ (
            ok (record {
              rc = pos 0;
              out = take (suc (read_limit max_bytes t.max_output_bytes)) file;
              err = err';
            }),
            w2,
          ))
      → (write_file t random sid path content utf8 w).0 ≡ ok tt
      → read_file t sid path max_bytes w1
        ≡ (ok (record { text = content; encoding = utf8; truncated = false }), w2)
  read_file-write_file random sid path content n max_bytes status out err err' w w1 w2 nonempty file
        plain scalar fits ran wrote head done =
      let there : sh.content w1 path ≡ some (encode content) =
        stored random path content n status w w1 nonempty file plain ran
          (exited_well random sid path content utf8 status out err w w1 wrote done) in
      read_back sid path content max_bytes err' w1 w2 scalar fits (head (encode content) there)
