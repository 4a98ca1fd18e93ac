-- ===== src/K8s/Exec/Reports.antt =====
-- A command run through `K8sProvider._exec_cli` (src/llm_sandbox/providers/k8s.py) and
-- `SessionOpsMixin.exec` (src/llm_sandbox/providers/base.py) together.
use llm_sandbox.Prelude.{
  ℕ, suc, ◌+◌, ◌-◌, ◌*◌, ◌/◌, ◌≡◌, refl, ap, ◌∙◌, arith, Bool, ◌||◌, List, [], Option, none, Text,
  Bytes, take, length, ltb,
}
use llm_sandbox.Prelude.Int.{ℤ}
use llm_sandbox.Python.Utf8.{decode}
use llm_sandbox.Python.Json.{Json}
use llm_sandbox.Base.Errors.{ok, after}
use llm_sandbox.Base.Limits.{cap_output}
use llm_sandbox.Base.Stream.{Reply}
use llm_sandbox.Base.Session.{Call, Transport, exec, exec_call, result, ExecResult}
use llm_sandbox.Base.Session.Results.{take-take-suc, over-take-suc}
use llm_sandbox.K8s.Manifest.{K8s}
use llm_sandbox.K8s.ExitCode.{exit_code}
use llm_sandbox.K8s.Stream.{
  Frame, stream, stdout_channel, stderr_channel, error_channel, exec_reply,
}
use llm_sandbox.K8s.Stream.Laws.{carried, receive_all_lem}
use llm_sandbox.K8s.Api.{Client}
use llm_sandbox.K8s.Exec.{Socket, accepted, closed, exec_url, exec_cli}

plus_one : (n : ℕ) → n + 1 ≡ suc n
plus_one n = omega arith

cap_output-take :
    (max : ℕ) (bytes : Bytes)
    → cap_output (take (max + 1) bytes) max ≡ (decode (take max bytes), ltb max (length bytes))
unfolding cap_output
cap_output-take max bytes =
    rw (plus_one max) (rw (take-take-suc max bytes, over-take-suc max bytes) refl)

module _ {W : Type 0} (socket : Socket W) (loads : Bytes → Option Json) (c : Client) (k : K8s) where
  abbrev pub transport : (W → ℕ) → Transport W
  transport clock = record {
    exec_cli = exec_cli socket loads c k;
    clock = clock;
    max_output_bytes = k.max_output_bytes;
  }

  abbrev collected : ℤ → List Frame → Reply
  collected rc frames = record {
    rc = rc;
    out = take (k.max_output_bytes + 1) (carried stdout_channel frames);
    err = take (k.max_output_bytes + 1) (carried stderr_channel frames);
  }

  stream-collected :
      (v5 : Bool) (rc : ℤ) (frames : List Frame)
      → exit_code loads (carried error_channel frames) ≡ ok rc
      → stream loads k.max_output_bytes v5 none frames ≡ ok ([], collected rc frames)
  unfolding stream
  stream-collected v5 rc frames e = rw (receive_all_lem (k.max_output_bytes + 1) frames) (rw e refl)

  exec_cli-collected :
      (sid : Text) (call : Call) (v5 : Bool) (rc : ℤ) (frames : List Frame) (w w1 w2 : W)
      → call.stdin ≡ none
      → socket.connect (exec_url c k sid call.argv none) call.timeout w ≡ (ok (accepted v5), w1)
      → socket.exchange [] w1 ≡ (ok (closed frames), w2)
      → exit_code loads (carried error_channel frames) ≡ ok rc
      → exec_cli socket loads c k sid call w ≡ (ok (collected rc frames), w2)
  unfolding exec_cli exec_reply
  exec_cli-collected sid call v5 rc frames w w1 w2 n opened received e =
      rw (n, opened, received, stream-collected v5 rc frames e) refl

  abbrev reported : ℤ → List Frame → ℕ → ExecResult
  reported rc frames nanoseconds = record {
    stdout = decode (take k.max_output_bytes (carried stdout_channel frames));
    stderr = decode (take k.max_output_bytes (carried stderr_channel frames));
    exit_code = rc;
    truncated =
        ltb k.max_output_bytes (length (carried stdout_channel frames))
        || ltb k.max_output_bytes (length (carried stderr_channel frames));
    duration_ms = nanoseconds * 1000 / 1000000000;
  }

  result-collected :
      (clock : W → ℕ) (rc : ℤ) (frames : List Frame) (start : ℕ) (w : W)
      → result (transport clock) (collected rc frames) start w
        ≡ (ok (reported rc frames (clock w - start)), w)
  unfolding result
  result-collected clock rc frames start w =
      rw
        (
          cap_output-take k.max_output_bytes (carried stdout_channel frames),
          cap_output-take k.max_output_bytes (carried stderr_channel frames),
        )
        refl

  -- A command run in a pod, whose exec stream opens on the address for it and closes with a status
  -- that reads as an exit code, is reported with that code, the first `max_output_bytes` bytes of
  -- what the frames carry on the channel of each stream, and `truncated` if either carries more,
  -- however the server cuts its output into frames.
  pub exec_reports_pod :
      (clock : W → ℕ) (sid command : Text) (timeout rc : ℤ) (workdir : Option Text) (v5 : Bool)
      (frames : List Frame) (w w1 w2 : W)
      → let call = exec_call command timeout workdir in
        socket.connect (exec_url c k sid call.argv none) call.timeout w ≡ (ok (accepted v5), w1)
        → socket.exchange [] w1 ≡ (ok (closed frames), w2)
        → exit_code loads (carried error_channel frames) ≡ ok rc
        → exec (transport clock) sid command timeout workdir w
          ≡ (ok (reported rc frames (clock w2 - clock w)), w2)
  unfolding exec exec_call
  exec_reports_pod clock sid command timeout rc workdir v5 frames w w1 w2 opened received e =
      let call = exec_call command timeout workdir in
      ap (after (λ reply. result (transport clock) reply (clock w)))
        (exec_cli-collected sid call v5 rc frames w w1 w2 refl opened received e)
      ∙ result-collected clock rc frames (clock w) w2
