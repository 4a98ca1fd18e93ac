-- ===== src/Gvisor/Output.antt =====
-- A command run through `GvisorProvider._exec_cli` (src/llm_sandbox/providers/gvisor.py) and
-- `SessionOpsMixin.exec` (src/llm_sandbox/providers/base.py) together.
use llm_sandbox.Prelude.{
  ℕ, suc, ◌+◌, ◌-◌, ◌*◌, ◌/◌, ◌≡◌, ◌≢◌, refl, ap, ◌∙◌, arith, false, ◌||◌, List, [], Option, some,
  Text, Bytes, All, take, length, ltb,
}
use llm_sandbox.Prelude.Int.{ℤ}
use llm_sandbox.Python.Utf8.{decode}
use llm_sandbox.Base.Errors.{ok, Run, after}
use llm_sandbox.Base.Limits.{cap_output}
use llm_sandbox.Base.Stream.{concat, Process, exited, Reply, run_cli}
use llm_sandbox.Base.Session.{Call, Transport, exec, exec_call, result}
use llm_sandbox.Base.Session.Results.{cap_output-pump}
use llm_sandbox.Gvisor.{Invocation, Gvisor, exec_invocation, looks_missing, docker, exec_cli}

plus_one : (n : ℕ) → n + 1 ≡ suc n
plus_one n = omega arith

module _ {W : Type 0} (spawn : Invocation → Run W Process) (g : Gvisor) where
  reply_kept :
      (sid : Text) (call : Call) (reply : Reply) (w w' : W)
      → docker spawn g (exec_invocation g sid call) w ≡ (ok reply, w')
      → looks_missing reply ≡ false
      → exec_cli spawn g sid call w ≡ (ok reply, w')
  unfolding exec_cli docker
  reply_kept sid call reply w w' e m = rw (e, after) (rw m refl)

  docker_ran :
      (i : Invocation) (p : Process) (w w' : W)
      → spawn i w ≡ (ok p, w')
      → docker spawn g i w ≡ (ok (run_cli i.max_bytes p), w')
  unfolding docker
  docker_ran i p w w' e = rw (e, after) refl

  -- The provider as the mixin sees it.
  abbrev pub transport : (W → ℕ) → Transport W
  transport clock = record {
    exec_cli = exec_cli spawn g;
    clock = clock;
    max_output_bytes = g.max_output_bytes;
  }

  reply_through :
      (sid : Text) (call : Call) (rc : ℤ) (outs errs : List Bytes) (w w' : W)
      → spawn (exec_invocation g sid call) w ≡ (ok (exited (some rc) outs errs), w')
      → looks_missing (run_cli (some (g.max_output_bytes + 1)) (exited (some rc) outs errs)) ≡ false
      → exec_cli spawn g sid call w
        ≡ (ok (run_cli (some (g.max_output_bytes + 1)) (exited (some rc) outs errs)), w')
  unfolding exec_invocation
  reply_through sid call rc outs errs w w' e m =
      reply_kept sid call _ w w'
        (docker_ran (exec_invocation g sid call) (exited (some rc) outs errs) w w' e) m

  capped :
      (clock : W → ℕ) (rc : ℤ) (outs errs : List Bytes) (start : ℕ) (w : W)
      → All (λ c. c ≢ []) outs
      → All (λ c. c ≢ []) errs
      → result
          (transport clock)
          (run_cli (some (g.max_output_bytes + 1)) (exited (some rc) outs errs))
          start
          w
        ≡ (
          ok (record {
            stdout = (cap_output (concat outs) g.max_output_bytes).0;
            stderr = (cap_output (concat errs) g.max_output_bytes).0;
            exit_code = rc;
            truncated =
                (cap_output (concat outs) g.max_output_bytes).1
                || (cap_output (concat errs) g.max_output_bytes).1;
            duration_ms = (clock w - start) * 1000 / 1000000000;
          }),
          w,
        )
  unfolding result run_cli
  capped clock rc outs errs start w h k =
      rw (plus_one g.max_output_bytes)
        (rw (cap_output-pump g.max_output_bytes outs h, cap_output-pump g.max_output_bytes errs k))

  -- A command run in a container, whose output comes in non-empty chunks and is not worded like the
  -- daemon's answer for a missing container, is reported with its exit code, the first
  -- `max_output_bytes` bytes of each stream as text, and `truncated` if either stream has more.
  pub exec_reports :
      (clock : W → ℕ) (sid command : Text) (timeout rc : ℤ) (workdir : Option Text)
      (outs errs : List Bytes) (w w' : W)
      → spawn (exec_invocation g sid (exec_call command timeout workdir)) w
        ≡ (ok (exited (some rc) outs errs), w')
      → All (λ c. c ≢ []) outs
      → All (λ c. c ≢ []) errs
      → looks_missing (run_cli (some (g.max_output_bytes + 1)) (exited (some rc) outs errs)) ≡ false
      → exec (transport clock) sid command timeout workdir w ≡ (
        ok (record {
          stdout = decode (take g.max_output_bytes (concat outs));
          stderr = decode (take g.max_output_bytes (concat errs));
          exit_code = rc;
          truncated =
              ltb g.max_output_bytes (length (concat outs))
              || ltb g.max_output_bytes (length (concat errs));
          duration_ms = (clock w' - clock w) * 1000 / 1000000000;
        }),
        w',
      )
  unfolding exec cap_output
  exec_reports clock sid command timeout rc workdir outs errs w w' e h k m =
      let call = exec_call command timeout workdir in
      ap (after (λ reply. result (transport clock) reply (clock w)))
        (reply_through sid call rc outs errs w w' e m)
      ∙ capped clock rc outs errs (clock w) w' h k
