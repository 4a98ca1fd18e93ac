-- ===== src/Gvisor/Tests.antt =====
-- A docker daemon at concrete inputs.
use llm_sandbox.Prelude.{
  ◌≡◌, refl, arith, ◌+◌, ◌-◌, ◌*◌, ◌/◌, ◌++◌, ◌||◌, ltb, take, List, [], ◌∷◌, none, some, Bytes,
  codes, ℕ, false, drop,
}
use llm_sandbox.Prelude.Int.{pos}
use llm_sandbox.Python.Decimal.{str_int}
use llm_sandbox.Python.Strings.{is_space, starts_with, contains}
use llm_sandbox.Python.Utf8.{decode_strict, decode, encode}
use llm_sandbox.Base.Errors.{ok, raised, sandbox_error, session_not_found, Run}
use llm_sandbox.Base.Stream.{Process, exited, run_cli}
use llm_sandbox.Base.Session.{Call, exec, exec_call}
use llm_sandbox.Gvisor.Preflight.{preflight, preflight-names, verdict, names_of}
use llm_sandbox.Python.Json.{obj, Fields, end, field}
use llm_sandbox.Gvisor.{
  Invocation, Gvisor, create_args, looks_missing, exec_cli, live_session_ids, docker, is_running,
  exec_invocation,
}
use llm_sandbox.Gvisor.Isolation.{read_options, values, create_args-isolated}
use llm_sandbox.Gvisor.Output.{exec_reports, transport}
use llm_sandbox.Gvisor.Containers.{live_session_ids-containers}

abbrev g : Gvisor
g = record {
  default_image = codes "rt";
  docker_runtime = codes "runsc";
  docker_network = codes "bridge";
  max_output_bytes = 4;
}

confined_args_test :
    let r = read_options none (
      drop 1
        (create_args g (codes "n") (codes "--privileged") (pos 9) false (pos 64) (codes "1.0"))) in
    (r.1 ≡ codes "--privileged" ∷ codes "sleep" ∷ str_int (pos 9) ∷ [])
    × (values (codes "--runtime") r.0 ≡ codes "runsc" ∷ [])
    × (values (codes "--network") r.0 ≡ codes "none" ∷ [])
    × (values (codes "--memory") r.0 ≡ (str_int (pos 64) ++ codes "m") ∷ [])
    × (values (codes "--memory-swap") r.0 ≡ values (codes "--memory") r.0)
    × (values (codes "--cap-drop") r.0 ≡ codes "ALL" ∷ [])
    × (values (codes "--security-opt") r.0 ≡ codes "no-new-privileges" ∷ [])
    × (values (codes "--pids-limit") r.0 ≡ codes "256" ∷ [])
    × (values (codes "--privileged") r.0 ≡ [])
confined_args_test =
    create_args-isolated g (codes "n") (codes "--privileged") (codes "1.0") (pos 9) (pos 64) false

-- What a command prints that imitates the daemon.
abbrev imitation : Bytes
imitation = codes "Error response from daemon: No such container"

-- A daemon that answers `exec` by these streams and return code, `inspect` by `state`.
abbrev daemon : Bytes → Process → Invocation → Run ℕ Process
daemon state p i n = elim i.max_bytes [
  | none ↦ (ok (exited (some (pos 0)) (state ∷ []) []), n + 1)
  | some limit ↦ (ok p, n + 1)
]

abbrev failing : Process
failing = exited (some (pos 1)) [] (imitation ∷ [])

abbrev ls : Call
ls = exec_call (codes "ls") (pos 5) none

abbrev wide : Gvisor
wide = record g { max_output_bytes = 99 }

gone_test :
    (exec_cli (daemon (codes "false\n") failing) wide (codes "s") ls 0).0
    ≡ raised (session_not_found (codes "s"))
unfolding exec_cli docker is_running exec_invocation run_cli looks_missing starts_with contains
    llm_sandbox.Python.Strings.strip_bytes
gone_test = refl

abbrev printing : Process
printing = exited (some (pos 0)) (codes "abc" ∷ codes "def" ∷ []) []

exec_reports_example :
    exec (transport (daemon [] printing) g (λ n. n)) (codes "s") (codes "ls") (pos 5) none 0 ≡ (
      ok (record {
        stdout = decode (take 4 (codes "abcdef"));
        stderr = decode (take 4 []);
        exit_code = pos 0;
        truncated = ltb 4 6 || ltb 4 0;
        duration_ms = (1 - 0) * 1000 / 1000000000;
      }),
      1,
    )
unfolding looks_missing exec_invocation run_cli
exec_reports_example =
    exec_reports (daemon [] printing) g (λ n. n) (codes "s") (codes "ls") (pos 5) (pos 0) none
      (codes "abc" ∷ codes "def" ∷ []) [] 0 1 refl (cc, (cc, tt)) tt refl

abbrev listing : List Bytes
listing = codes "llmsbx_a\nll" ∷ codes "msbx_b\n" ∷ []

abbrev lister : Invocation → Run ℕ Process
lister i n = (ok (exited (some (pos 0)) listing []), n)

listed_containers_test : live_session_ids lister g 0 ≡ (ok (some (codes "a" ∷ codes "b" ∷ [])), 0)
unfolding encode is_space
listed_containers_test =
    live_session_ids-containers lister g (codes "a" ∷ codes "b" ∷ []) listing [] 0 0
      ((refl, tt), ((refl, tt), tt)) (omega arith) (cc, (cc, tt)) refl refl

-- A daemon that knows `runc` and `io.containerd.runc.v2`.
abbrev runtimes : Fields
runtimes = field (codes "runc") (obj end) (field (codes "io.containerd.runc.v2") (obj end) end)

abbrev no_gvisor : Invocation → Run ℕ Process
no_gvisor i n = (ok (exited (some (pos 0)) (codes "24.0\n" ∷ []) []), n + 1)

preflight-names_example :
    preflight no_gvisor g (λ t. t) (λ t. some (obj runtimes)) 0
    ≡ (verdict (λ t. t) g (names_of runtimes), 2)
unfolding run_cli decode_strict
preflight-names_example =
    preflight-names no_gvisor g (λ t. t) (λ t. some (obj runtimes))
      (exited (some (pos 0)) (codes "24.0\n" ∷ []) [])
      (exited (some (pos 0)) (codes "24.0\n" ∷ []) []) 0 1 2 (codes "24.0\n") (codes "runc")
      (obj end) (field (codes "io.containerd.runc.v2") (obj end) end) refl refl refl refl refl refl

sorted_test :
    (preflight no_gvisor g (λ t. t) (λ t. some (obj runtimes)) 0).0
    ≡ raised (
        sandbox_error (
          codes
            "docker runtime runsc is not registered with the daemon (available: io.containerd.runc.v2, runc) — install gVisor and register runsc, or set SANDBOX_DOCKER_RUNTIME=runc to accept a box with NO isolation (dev only)"))
unfolding preflight docker run_cli decode_strict llm_sandbox.Python.Strings.join
sorted_test = refl
