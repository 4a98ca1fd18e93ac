-- ===== src/K8s/Exec/Tests.antt =====
-- An exec stream at concrete inputs.
use llm_sandbox.Prelude.{ℕ, ◌≡◌, refl, arith, List, [], ◌∷◌, none, Text, codes, map}
use llm_sandbox.Python.Utf8.{encode}
use llm_sandbox.Python.Query.{urlencode}
use llm_sandbox.Python.Query.Reading.{read_query, encoded}
use llm_sandbox.Prelude.{ltb, take, length, ◌||◌, ◌+◌, ◌-◌, ◌*◌, ◌/◌, false, true}
use llm_sandbox.Prelude.Int.{pos}
use llm_sandbox.Python.Utf8.{decode}
use llm_sandbox.Base.Errors.{ok}
use llm_sandbox.Base.Session.{exec}
use llm_sandbox.K8s.Manifest.{K8s}
use llm_sandbox.K8s.Stream.{Frame, text, binary, stdout_channel, stderr_channel}
use llm_sandbox.K8s.Stream.Laws.{carried}
use llm_sandbox.K8s.Exec.Reports.{transport, exec_reports_pod}
use llm_sandbox.K8s.Exec.{exec_query, flags, Socket, accepted, closed}
use llm_sandbox.K8s.Exec.Words.{command_of, options_of, exec_query-words}

-- A word that looks like more of the query string.
abbrev sly : List Text
sly = codes "sh" ∷ codes "&tty=1" ∷ []

exec_query-words_example :
    let pairs = read_query (urlencode (exec_query sly none)) in
    (command_of pairs ≡ map encode sly) × (options_of pairs ≡ map encoded (flags none))
exec_query-words_example = exec_query-words sly none (ground arith)

escaped_test : urlencode ((codes "command", codes "a b&c=\"") ∷ []) ≡ codes "command=a+b%26c%3D%22"
unfolding urlencode encode
escaped_test = refl

abbrev settings : K8s
settings = record {
  default_image = codes "rt";
  namespace = codes "default";
  runtime_class = codes "gvisor";
  node_selector = [];
  toleration = none;
  image_pull_secrets = [];
  create_timeout = 2;
  max_output_bytes = 4;
  disk_mb = pos 256;
}

-- A server that sends three frames, in two packets' worth of stdout.
abbrev frames : List Frame
frames = binary (1 ∷ codes "ab") ∷ text [] ∷ binary (1 ∷ codes "cdef") ∷ binary (2 ∷ codes "e") ∷ []

abbrev server : Socket ℕ
server = record {
  connect = λ url timeout n. (ok (accepted false), n + 1);
  exchange = λ sent n. (ok (closed frames), n + 1);
}

exec_reports_pod_example :
    exec
      (transport server
        (λ bytes. none)
        (record { authority = []; token = []; token_at = 0; is_open = false })
        settings
        (λ n. n))
      (codes "s")
      (codes "ls")
      (pos 5)
      none
      0
    ≡ (
      ok (record {
        stdout = decode (take 4 (carried stdout_channel frames));
        stderr = decode (take 4 (carried stderr_channel frames));
        exit_code = pos 0;
        truncated =
            ltb 4 (length (carried stdout_channel frames))
            || ltb 4 (length (carried stderr_channel frames));
        duration_ms = (2 - 0) * 1000 / 1000000000;
      }),
      2,
    )
unfolding llm_sandbox.K8s.ExitCode.exit_code
exec_reports_pod_example =
    exec_reports_pod server (λ bytes. none)
      (record { authority = []; token = []; token_at = 0; is_open = false }) settings (λ n. n)
      (codes "s") (codes "ls") (pos 5) (pos 0) none false frames 0 1 2 refl refl refl

reported_test :
    (exec
      (transport server
        (λ bytes. none)
        (record { authority = []; token = []; token_at = 0; is_open = false })
        settings
        (λ n. n))
      (codes "s")
      (codes "ls")
      (pos 5)
      none
      0).0
    ≡ ok (record {
      stdout = codes "abcd";
      stderr = codes "e";
      exit_code = pos 0;
      truncated = true;
      duration_ms = 0;
    })
unfolding exec llm_sandbox.K8s.Exec.exec_cli llm_sandbox.Base.Session.exec_call
    llm_sandbox.K8s.ExitCode.exit_code llm_sandbox.Base.Limits.cap_output decode
    llm_sandbox.Base.Stream.extend
reported_test = refl
