-- ===== src/Base/Session/Tests.antt =====
-- The in-session primitives at concrete calls, over a session with one file.
use llm_sandbox.Prelude.{
  ℕ, ◌+◌, ◌<◌, ◌≡◌, refl, arith, [], ◌∷◌, ◌++◌, codes, Text, ltb, take, drop, some, none, length,
}
use llm_sandbox.Prelude.Int.{pos, negsuc, max_ℤ}
use llm_sandbox.Python.Decimal.{decimal, str_int}
use llm_sandbox.Python.Strings.{starts_with, dirname, strip}
use llm_sandbox.Python.Utf8.{encode, decode}
use llm_sandbox.Base.Errors.{ok, raised, path_not_found, sandbox_error}
use llm_sandbox.Base.Limits.{cap_output}
use llm_sandbox.Base.Stream.{Reply, pump, concat}
use llm_sandbox.Base.Session.{
  workspace, utf8, base64, or_else, exec_line, exec_call, run_call, write_call, read_call,
  read_limit, Transport, read_file, write_file, Content,
}
use llm_sandbox.Base.Session.Calls.{
  fixed, word, Reads, RunsPieces, write_pieces, run_pieces, scratch, enters, exec_line-enters,
  exec_line-Reads, write_call-RunsPieces, run_call-RunsPieces, read_call-RunsPieces,
  exec_call_deadline,
}
use llm_sandbox.Base.Session.Results.{cap_output-pump}
use llm_sandbox.Base.Session.Files.{bytes_of, read_file_faithful, file_errors}

abbrev tricky : Text
tricky = codes "/w/it's; rm -rf $HOME"

tricky_line_test :
    Reads
      (fixed (codes "cd ") ∷ word tricky ∷ fixed (codes " && " ++ codes "ls") ∷ [])
      (exec_line (codes "ls") (some tricky))
tricky_line_test = exec_line-Reads (codes "ls") (some tricky)

exec_line-enters_example : enters (exec_line (codes "ls") (some tricky)) ≡ some (tricky, codes "ls")
unfolding starts_with
exec_line-enters_example = exec_line-enters (codes "ls") (some tricky) refl

-- `cd` takes the directory for an option.
option_test : enters (exec_line (codes "ls") (some (codes "-P"))) ≡ none
unfolding exec_line starts_with llm_sandbox.Python.Shlex.quote llm_sandbox.Python.Shlex.is_safe
    llm_sandbox.Python.Shlex.Word.read_word llm_sandbox.Python.Shlex.Word.is_bare
option_test = refl

write_call-RunsPieces_example :
    RunsPieces (write_call (codes "0a1b2c3d") tricky (codes "x") base64) (
      write_pieces base64
        (or_else (dirname tricky) workspace)
        (tricky ++ (codes ".partial-" ++ codes "0a1b2c3d"))
        tricky
        (length (encode (codes "x"))))
    × ((write_call (codes "0a1b2c3d") tricky (codes "x") base64).stdin ≡ some (encode (codes "x")))
write_call-RunsPieces_example = write_call-RunsPieces (codes "0a1b2c3d") tricky (codes "x") base64

quoted_run_test :
    RunsPieces (run_call (codes "ff") (codes "1") (codes "python3") (codes "py") (pos 9)) (
      run_pieces
        (scratch (codes "ff") (codes "py"))
        (length (encode (codes "1")))
        9
        (codes "python3"))
    × ((run_call (codes "ff") (codes "1") (codes "python3") (codes "py") (pos 9)).stdin
        ≡ some (encode (codes "1")))
quoted_run_test =
    run_call-RunsPieces (codes "ff") (codes "1") (codes "python3") (codes "py") (pos 9)

quoted_read_test :
    RunsPieces
      (read_call tricky 9)
      (fixed (codes "head -c ") ∷ fixed (decimal (9 + 1)) ∷ fixed (codes " ") ∷ word tricky ∷ [])
quoted_read_test = read_call-RunsPieces tricky 9

deadline_test :
    let call = exec_call (codes "ls") (negsuc 2) none in
    (n : ℕ) × (take 1 (drop 3 call.argv) ≡ str_int (pos n) ∷ [])
    × (pos n ≡ max_ℤ (pos 1) (negsuc 2))
    × (n + 1 < call.timeout)
deadline_test = exec_call_deadline (codes "ls") (negsuc 2) none

capped_pump_test :
    cap_output (pump (some 3) [] (codes "ab" ∷ codes "cd" ∷ [])) 2
    ≡ cap_output (concat (codes "ab" ∷ codes "cd" ∷ [])) 2
capped_pump_test = cap_output-pump 2 (codes "ab" ∷ codes "cd" ∷ []) (cc, (cc, tt))

-- A transport whose every reply is the same.
abbrev replying : Reply → Transport (Unit {0})
replying reply = record {
  exec_cli = λ sid call w. (ok reply, w);
  clock = λ w. 0;
  max_output_bytes = 4;
}

abbrev found : Reply
found = record { rc = pos 0; out = codes "abcde"; err = [] }

read_file_faithful_example :
    (c : Content) × (read_file (replying found) (codes "s") (codes "/f") 9 tt ≡ (ok c, tt))
    × (bytes_of c ≡ take (read_limit 9 4) (codes "abcdef"))
    × (c.truncated ≡ ltb (read_limit 9 4) (length (codes "abcdef")))
read_file_faithful_example =
    read_file_faithful (replying found) (codes "s") (codes "/f") 9 (codes "abcdef") [] tt tt refl
      (omega arith)

abbrev lost : Reply
lost = record { rc = pos 1; out = []; err = codes " no file\n" }

failed_calls_test :
    (read_file (replying lost) (codes "s") (codes "/f") 9 tt
      ≡ (raised (path_not_found (or_else (strip (decode (codes " no file\n"))) (codes "/f"))), tt))
    × (write_file (replying lost) (codes "ab") (codes "s") (codes "/f") (codes "x") utf8 tt ≡ (
      raised (sandbox_error (codes "write_file failed: " ++ strip (decode (codes " no file\n")))),
      tt,
    ))
failed_calls_test =
    file_errors (replying lost) (codes "ab") (codes "s") (codes "/f") (codes "x") utf8 9 (pos 1) []
      (codes " no file\n") tt tt refl refl refl
