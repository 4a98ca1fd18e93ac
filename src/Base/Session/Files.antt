-- ===== src/Base/Session/Files.antt =====
-- `read_file` and `write_file` of `SessionOpsMixin` (src/llm_sandbox/providers/base.py) against the
-- replies of the session's shell.
use llm_sandbox.Prelude.{
  ℕ, suc, ◌≡◌, refl, ◌++◌, Text, Bytes, codes, All, All-take, take, length, ltb, false,
  Option-cases, inl, inr, Bool,
}
use llm_sandbox.Prelude.Int.{ℤ, pos}
use llm_sandbox.Python.Strings.{strip}
use llm_sandbox.Python.Utf8.{encode, decode, decode_strict}
use llm_sandbox.Python.Utf8.RoundTrip.{encode-decode_strict}
use llm_sandbox.Python.Base64.{b64decode, IsByte, b64decode-b64encode}
use llm_sandbox.Base.Errors.{after, ok, raised, path_not_found, sandbox_error}
use llm_sandbox.Base.Session.Results.{take-take-suc, over-take-suc}
use llm_sandbox.Base.Session.{
  Encoding, utf8, base64, Content, Transport, present, read_call, read_limit, read_file, write_call,
  write_file, or_else, is_zero,
}

-- The bytes that a client makes of a response.
abbrev pub bytes_in : Encoding → Text → Bytes
bytes_in utf8 text = encode text
bytes_in base64 text = b64decode text

abbrev pub bytes_of : Content → Bytes
bytes_of c = bytes_in c.encoding c.text

present-bytes :
    (bs : Bytes) (truncated : Bool)
    → All IsByte bs
    → (bytes_of (present bs truncated) ≡ bs) × ((present bs truncated).truncated ≡ truncated)
unfolding present
present-bytes bs truncated h = elim (Option-cases (decode_strict bs)) [
  | inl e ↦ rw (e, present) (b64decode-b64encode bs h, refl)
  | inr (s, e) ↦ rw (e, present) (encode-decode_strict bs s e, refl)
]

module _ {W : Type 0} (t : Transport W) where
  -- Where `head -c` gave the first `limit + 1` bytes of the file, `read_file` returns the first
  -- `limit` of them exactly, as UTF-8 or as base64, and `truncated` says whether the file has more.
  pub read_file_faithful :
      (sid path : Text) (max_bytes : ℕ) (file err : Bytes) (w w' : W)
      → t.exec_cli sid (read_call path (read_limit max_bytes t.max_output_bytes)) w ≡ (
        ok (record {
          rc = pos 0;
          out = take (suc (read_limit max_bytes t.max_output_bytes)) file;
          err = err;
        }),
        w',
      )
      → All IsByte file
      → (c : Content) × (read_file t sid path max_bytes w ≡ (ok c, w'))
        × (bytes_of c ≡ take (read_limit max_bytes t.max_output_bytes) file)
        × (c.truncated ≡ ltb (read_limit max_bytes t.max_output_bytes) (length file))
  unfolding read_file
  read_file_faithful sid path max_bytes file err w w' e h =
      let limit = read_limit max_bytes t.max_output_bytes in
      let (whole, flag) =
        present-bytes (take limit file) (ltb limit (length file)) (All-take IsByte limit file h) in
      (
        present (take limit file) (ltb limit (length file)),
        rw (e, after) (rw (take-take-suc limit file, over-take-suc limit file)),
        whole,
        flag,
      )

  -- A non-zero exit code of `head` becomes a `PathNotFound` with what it wrote to stderr, or with
  -- the path if that was blank; one of the write script becomes a `SandboxError`.
  pub file_errors :
      (random sid path content : Text) (encoding : Encoding) (max_bytes : ℕ) (rc : ℤ)
      (out err : Bytes) (w w' : W)
      → is_zero rc ≡ false
      → t.exec_cli sid (read_call path (read_limit max_bytes t.max_output_bytes)) w
        ≡ (ok (record { rc = rc; out = out; err = err }), w')
      → t.exec_cli sid (write_call random path content encoding) w
        ≡ (ok (record { rc = rc; out = out; err = err }), w')
      → (read_file t sid path max_bytes w
          ≡ (raised (path_not_found (or_else (strip (decode err)) path)), w'))
        × (write_file t random sid path content encoding w
            ≡ (raised (sandbox_error (codes "write_file failed: " ++ strip (decode err))), w'))
  unfolding read_file write_file
  file_errors random sid path content encoding max_bytes rc out err w w' z e e' =
      (rw (e, after) (rw z), rw (e', after) (rw z))
