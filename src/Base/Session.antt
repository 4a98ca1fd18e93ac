-- ===== src/Base/Session.antt =====
-- `SessionOpsMixin` of src/llm_sandbox/providers/base.py: the in-session primitives over one hook,
-- `_exec_cli`, which each provider implements. The world `W` holds the sessions; the hook and the
-- clock are the section's parameters, and so is the random part of a scratch name an argument.
pub mod Calls
pub mod Results
pub mod Files
pub mod Listing
mod Tests
use llm_sandbox.Prelude.{
  ℕ, zero, ◌*◌, ◌+◌, ◌-◌, ◌/◌, ◌||◌, Bool, true, false, List, [], ◌∷◌, ◌++◌, Option, none, some,
  Text, Bytes, codes, length, take, ltb, if◌then◌else◌,
}
use llm_sandbox.Prelude.Int.{ℤ, pos, max_ℤ, pos_part}
use llm_sandbox.Python.Decimal.{decimal}
use llm_sandbox.Python.Strings.{strip, dirname}
use llm_sandbox.Python.Shlex.{quote}
use llm_sandbox.Python.Utf8.{encode, decode, decode_strict}
use llm_sandbox.Python.Base64.{b64encode}
use llm_sandbox.Base.Errors.{
  Exception, sandbox_error, path_not_found, Outcome, ok, raised, Run, ◌>>=◌, return, throw,
}
use llm_sandbox.Base.Limits.{cap_output}
use llm_sandbox.Base.Stream.{Reply}

abbrev pub workspace : Text
workspace = codes "/workspace"

-- What `_exec_cli` is asked to run.
pub record Call : Type 0 where
  pub argv : List Text
  pub stdin : Option Bytes
  pub timeout : ℕ

pub record ExecResult : Type 0 where
  pub stdout : Text
  pub stderr : Text
  pub exit_code : ℤ
  pub truncated : Bool
  pub duration_ms : ℕ

pub data Encoding : Type 0 where
  utf8 base64 : Encoding

-- `x or fallback`
abbrev pub or_else : Text → Text → Text
or_else [] fallback = fallback
or_else (c ∷ cs) fallback = c ∷ cs

abbrev pub directory : Option Text → Text
directory none = workspace
directory (some d) = or_else d workspace

-- `max(1, int(timeout_seconds))`
abbrev pub at_least_one : ℤ → ℕ
at_least_one timeout = pos_part (max_ℤ (pos 1) timeout)

-- `full` of `exec`
unfoldable pub exec_line : Text → Option Text → Text
exec_line command workdir = codes "cd " ++ (quote (directory workdir) ++ (codes " && " ++ command))

unfoldable pub exec_call : Text → ℤ → Option Text → Call
unfolding exec_line
exec_call command timeout workdir = record {
  argv =
      codes "timeout"
      ∷ codes "-k"
      ∷ codes "1"
      ∷ decimal (at_least_one timeout)
      ∷ codes "sh"
      ∷ codes "-c"
      ∷ exec_line command workdir
      ∷ [];
  stdin = none;
  timeout = at_least_one timeout + 2;
}

-- The script of `run_script`; `path` is quoted already.
unfoldable pub run_line : Text → ℕ → ℕ → Text → Text
run_line path size seconds interpreter =
    codes "cat > "
    ++ (path
        ++ (codes " && [ \"$(wc -c < "
            ++ (path
                ++ (codes ")\" -eq "
                    ++ (decimal size
                        ++ (codes " ] && cd "
                            ++ (quote workspace
                                ++ (codes " && timeout -k 1 "
                                    ++ (decimal seconds
                                        ++ (codes " "
                                            ++ (quote interpreter
                                                ++ (codes " "
                                                    ++ (path
                                                        ++ (codes "; rc=$?; rm -f "
                                                            ++ (path
                                                            ++ codes "; exit $rc")))))))))))))))

-- The scratch file of one call.
abbrev pub script_path : Text → Text → Text
script_path random ext = quote (codes "/tmp/_run_" ++ (random ++ (codes "." ++ ext)))

unfoldable pub run_call : Text → Text → Text → Text → ℤ → Call
unfolding run_line
run_call random code interpreter ext timeout = record {
  argv =
      codes "sh"
      ∷ codes "-c"
      ∷ run_line (script_path random ext) (length (encode code)) (at_least_one timeout) interpreter
      ∷ [];
  stdin = some (encode code);
  timeout = at_least_one timeout + 5;
}

-- `finish` of `write_file`; both names are quoted already.
abbrev pub finish_line : Encoding → Text → Text → Text
finish_line base64 tmp dest =
    codes "base64 -d "
    ++ (tmp ++ (codes " > " ++ (dest ++ (codes " || { rm -f " ++ (dest ++ codes "; false; }")))))
finish_line utf8 tmp dest = codes "mv -f " ++ (tmp ++ (codes " " ++ dest))

unfoldable pub write_line : Encoding → Text → Text → Text → ℕ → Text
write_line encoding parent tmp dest size =
    codes "mkdir -p "
    ++ (parent
        ++ (codes " && cat > "
            ++ (tmp
                ++ (codes " && [ \"$(wc -c < "
                    ++ (tmp
                        ++ (codes ")\" -eq "
                            ++ (decimal size
                                ++ (codes " ] && "
                                    ++ (finish_line encoding tmp dest
                                        ++ (codes "; rc=$?; rm -f "
                                            ++ (tmp ++ codes "; exit $rc")))))))))))

-- `random` is `uuid.uuid4().hex[:8]`.
unfoldable pub write_call : Text → Text → Text → Encoding → Call
unfolding write_line
write_call random path content encoding = record {
  argv =
      codes "sh"
      ∷ codes "-c"
      ∷ write_line encoding (quote (or_else (dirname path) workspace))
          (quote (path ++ (codes ".partial-" ++ random))) (quote path) (length (encode content))
      ∷ [];
  stdin = some (encode content);
  timeout = 60;
}

unfoldable pub read_call : Text → ℕ → Call
read_call path limit = record {
  argv =
      codes "sh"
      ∷ codes "-c"
      ∷ (codes "head -c " ++ (decimal (limit + 1) ++ (codes " " ++ quote path)))
      ∷ [];
  stdin = none;
  timeout = 30;
}

-- `min(max_bytes, self.max_output_bytes)`
abbrev pub read_limit : ℕ → ℕ → ℕ
read_limit max_bytes max_output_bytes =
    if ltb max_output_bytes max_bytes then max_output_bytes else max_bytes

pub record Content : Type 0 where
  pub text : Text
  pub encoding : Encoding
  pub truncated : Bool

-- A payload as text where its bytes are UTF-8, and as base64 where they are not.
unfoldable pub present : Bytes → Bool → Content
present bytes truncated = elim (decode_strict bytes) [
  | some text ↦ record { text = text; encoding = utf8; truncated = truncated }
  | none ↦ record { text = b64encode bytes; encoding = base64; truncated = truncated }
]

abbrev pub is_zero : ℤ → Bool
is_zero (pos zero) = true
is_zero _ = false

-- The provider behind the mixin: its hook, the clock in nanoseconds, and its output cap.
pub record Transport (W : Type 0) : Type 0 where
  pub exec_cli : Text → Call → Run W Reply
  pub clock : W → ℕ
  pub max_output_bytes : ℕ

module _ {W : Type 0} (t : Transport W) where
  abbrev monotonic : Run W ℕ
  monotonic w = (ok (t.clock w), w)

  -- `_result`
  unfoldable pub result : Reply → ℕ → Run W ExecResult
  result reply start = do
    now ← monotonic
    let (stdout, t1) = cap_output reply.out t.max_output_bytes
    let (stderr, t2) = cap_output reply.err t.max_output_bytes
    return (record {
      stdout = stdout;
      stderr = stderr;
      exit_code = reply.rc;
      truncated = t1 || t2;
      duration_ms = (now - start) * 1000 / 1000000000;
    })

  unfoldable pub exec : Text → Text → ℤ → Option Text → Run W ExecResult
  unfolding result
  exec sid command timeout workdir = do
    start ← monotonic
    reply ← t.exec_cli sid (exec_call command timeout workdir)
    result reply start

  unfoldable pub run_script : Text → Text → Text → Text → Text → ℤ → Run W ExecResult
  unfolding result
  run_script random sid code interpreter ext timeout = do
    start ← monotonic
    reply ← t.exec_cli sid (run_call random code interpreter ext timeout)
    result reply start

  unfoldable pub write_file : Text → Text → Text → Text → Encoding → Run W (Unit {0})
  write_file random sid path content encoding = do
    reply ← t.exec_cli sid (write_call random path content encoding)
    if is_zero reply.rc
        then return tt
        else throw (sandbox_error (codes "write_file failed: " ++ strip (decode reply.err)))

  unfoldable pub read_file : Text → Text → ℕ → Run W Content
  read_file sid path max_bytes = do
    let limit = read_limit max_bytes t.max_output_bytes
    reply ← t.exec_cli sid (read_call path limit)
    if is_zero reply.rc
        then return (present (take limit reply.out) (ltb limit (length reply.out)))
        else throw (path_not_found (or_else (strip (decode reply.err)) path))
