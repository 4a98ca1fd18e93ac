-- ===== src/Providers/Recount.antt =====
-- The slots of the service over gVisor (src/llm_sandbox/app.py, src/llm_sandbox/providers/gvisor.py):
-- the recount asks docker for the containers.
use llm_sandbox.Prelude.{◌<◌, ◌≡◌, ◌≢◌, ap, ℕ, true, List, [], some, Text, Bytes, All, elem, map}
use llm_sandbox.Prelude.Int.{pos}
use llm_sandbox.Python.Utf8.{encode}
use llm_sandbox.Python.Utf8.RoundTrip.{IsScalar}
use llm_sandbox.Base.Errors.{ok, Run}
use llm_sandbox.Base.Stream.{concat, Process, exited}
use llm_sandbox.App.Slots.{Slots, listed}
use llm_sandbox.App.Slots.Dict.{lookup, HasUniqueKeys}
use llm_sandbox.App.Slots.Recounting.{answer_of, acquire_with, acquire_with_keeps}
use llm_sandbox.Gvisor.{Invocation, Gvisor, container, list_invocation, live_session_ids}
use llm_sandbox.Python.Decimal.RoundTrip.{Solid}
use llm_sandbox.Gvisor.Containers.{lines, live_session_ids-containers}

-- A session whose container docker lists, and whose deadline lies ahead at both clock readings, is
-- still counted after an `acquire`, whether or not that comes to a recount.
pub acquire_with_keeps_running :
    {W : Type 0} (spawn : Invocation → Run W Process) (g : Gvisor) (k : Text) (now later d : ℕ)
    (s : Slots) (sids : List Text) (outs errs : List Bytes) (w w' : W)
    → All Solid sids
    → All (All IsScalar) sids
    → All (λ c. c ≢ []) outs
    → concat outs ≡ encode (lines (map container sids))
    → spawn list_invocation w ≡ (ok (exited (some (pos 0)) outs errs), w')
    → elem k sids ≡ true
    → HasUniqueKeys s.deadlines
    → lookup k s.deadlines ≡ some d
    → now < d
    → later < d
    → lookup k (acquire_with (live_session_ids spawn g) now later (s, w)).1.0.deadlines ≡ some d
acquire_with_keeps_running spawn g k now later d s sids outs errs w w' solid scalar full text ran
      there u held h h' =
    acquire_with_keeps (live_session_ids spawn g) k now later d s w (listed sids)
      (ap (λ r. answer_of r.0)
        (live_session_ids-containers spawn g sids outs errs w w' solid scalar full text ran))
      there u held h h'
