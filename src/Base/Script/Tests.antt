-- ===== src/Base/Script/Tests.antt =====
-- The scripts of `write_file` and `run_script` on files in memory.
use llm_sandbox.Prelude.{
  ap, if◌then◌else◌, ◌≡◌, ◌≢◌, ◌⊎◌, refl, arith, [], none, some, Bytes, codes, take, text_eq, false,
}
use llm_sandbox.Prelude.Int.{pos}
use llm_sandbox.Python.Shlex.{quote}
use llm_sandbox.Python.Strings.{starts_with}
use llm_sandbox.Python.Utf8.{encode}
use llm_sandbox.Python.Base64.{b64encode}
use llm_sandbox.Base.Errors.{Outcome, ok}
use llm_sandbox.Base.Stream.{Reply}
use llm_sandbox.Base.Session.{
  Transport, utf8, base64, write_line, write_file, read_file, read_call, write_call,
}
use llm_sandbox.Base.Script.{render, write_script, run_of, render-write_script}
use llm_sandbox.Base.Script.Tools.{execute}
use llm_sandbox.Base.Script.Binary.{write_script-base64, write_script-cut}
use llm_sandbox.Base.Script.Running.{Ended, run_of-Ended}
use llm_sandbox.Base.Script.Memory.{Files, memory, memory-IsLawful, memory-Removes}
use llm_sandbox.Base.Script.Stored.{script_of, read_file-write_file}

abbrev old : Files
old name = if text_eq name (codes "f") then some (codes "old") else none

rendered_write_test :
    render (write_script base64 (codes "/w") (codes "/w/f.partial-0") (codes "/w/f") 4)
    ≡ write_line base64
        (quote (codes "/w"))
        (quote (codes "/w/f.partial-0"))
        (quote (codes "/w/f"))
        4
rendered_write_test =
    render-write_script base64 (codes "/w") (codes "/w/f.partial-0") (codes "/w/f") 4

decoded_write_test :
    let r =
      execute memory
        (write_script base64 [] (codes "t") (codes "f") 4)
        (b64encode (codes "new"))
        old in
    ((r.0 ≡ 0) × (r.1 (codes "f") ≡ some (codes "new"))) ⊎ ((r.0 ≢ 0) × (r.1 (codes "f") ≡ none))
unfolding starts_with
decoded_write_test =
    write_script-base64 memory memory-IsLawful (b64encode (codes "new")) old (codes "new") []
      (codes "t") (codes "f") 4 memory-Removes (omega arith) refl (refl, refl) (refl, refl) refl

write_script-cut_example :
    let r = execute memory (write_script base64 [] (codes "t") (codes "f") 4) (codes "b") old in
    (r.0 ≢ 0) × (r.1 (codes "f") ≡ none)
unfolding starts_with
write_script-cut_example =
    write_script-cut memory memory-IsLawful (codes "b") old [] (codes "t") (codes "f") 4
      memory-Removes (omega arith) (refl, refl) (refl, refl) refl

-- A session whose shell runs the script of one call, and whose `head` reads one file.
abbrev session : Transport Files
session = record {
  exec_cli = λ sid call files. elim call.stdin [
    | some stdin ↦ (
      ok (record {
        rc =
            pos
              (execute memory (script_of utf8 (codes "0") (codes "f") (codes "new")) stdin files).0;
        out = [];
        err = [];
      }),
      (execute memory (script_of utf8 (codes "0") (codes "f") (codes "new")) stdin files).1,
    )
    | none ↦ elim (files (codes "f")) [
      | some file ↦ (ok (record { rc = pos 0; out = take 10 file; err = [] }), files)
      | none ↦ (ok (record { rc = pos 1; out = []; err = [] }), files)
    ]
  ];
  clock = λ files. 0;
  max_output_bytes = 9;
}

abbrev updated : Files
updated =
    (execute memory (script_of utf8 (codes "0") (codes "f") (codes "new")) (codes "new") old).1

abbrev headed : Bytes → Outcome Reply × Files
headed file = (ok (record { rc = pos 0; out = take 10 file; err = [] }), updated)

read_file-write_file_example :
    read_file session (codes "s") (codes "f") 9 updated
    ≡ (ok (record { text = codes "new"; encoding = utf8; truncated = false }), updated)
unfolding starts_with execute write_script encode write_call write_file read_call
read_file-write_file_example =
    read_file-write_file session memory memory-IsLawful (codes "0") (codes "s") (codes "f")
      (codes "new") 3 9 0 [] [] [] old updated updated (λ e. cc) (refl, refl) refl (omega arith)
      (omega arith) refl refl (λ file there. let same : codes "new" ≡ file = cc in ap headed same)
      refl

-- The input of a script of four bytes is cut after two.
run_of-Ended_example :
    Ended memory memory-IsLawful
      (codes "pr")
      old
      (codes "/tmp/_run_0.py")
      4
      60
      (codes "python3")
      (codes "f")
      (execute memory (run_of (codes "/tmp/_run_0.py") 4 60 (codes "python3")) (codes "pr") old)
unfolding starts_with
run_of-Ended_example =
    run_of-Ended memory memory-IsLawful (codes "pr") old (codes "/tmp/_run_0.py") 4 60
      (codes "python3") (codes "f") memory-Removes (refl, refl) refl

cut_off_test :
    (execute memory (run_of (codes "/tmp/_run_0.py") 4 60 (codes "python3")) (codes "pr") old).0 ≡ 1
unfolding execute run_of
cut_off_test = refl
