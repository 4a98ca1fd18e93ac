-- ===== src/App/Handlers.antt =====
-- The handlers of src/llm_sandbox/app.py over a provider: `create_session`, `destroy_session`,
-- `exec_command`, `run_code`, `write_file`, `read_file`, `list_files`, and the exception handlers. The state is the
-- slots and the provider's world; log lines are left out.
pub mod Create
pub mod Fixtures
mod Tests
use llm_sandbox.Prelude.{
  ℕ, ◌≡◌, refl, Bool, true, false, List, [], ◌∷◌, ◌++◌, Option, none, some, Text, codes,
  if◌then◌else◌,
}
use llm_sandbox.Prelude.Int.{ℤ, pos, min_ℤ}
use llm_sandbox.Python.Decimal.{decimal, str_int}
use llm_sandbox.Base.Errors.{
  Exception, sandbox_error, session_not_found, path_not_found, http, cancelled, failure, Outcome,
  ok, raised, Run, ◌>>=◌, ◌>>◌, return, throw,
}
use llm_sandbox.Base.Limits.{Floats, clamp_resources}
use llm_sandbox.Base.Session.{ExecResult, Encoding, Content}
use llm_sandbox.Config.{Settings}
use llm_sandbox.Models.{
  CreateSessionRequest, Session, ExecRequest, RunRequest, WriteFileRequest, Listing,
}
use llm_sandbox.App.Slots.{Slots, Verdict, admitted, rejected, commit, rollback, release}
use llm_sandbox.App.Slots.Recounting.{acquire_with}
use llm_sandbox.App.Auth.{resolve_image}

-- What the application calls of `SandboxProvider`.
pub record Provider (Float W : Type 0) : Type 0 where
  pub name : Text
  pub startup : Run W (Unit {0})
  pub shutdown : Run W (Unit {0})
  pub preflight : Run W (Unit {0})
  pub create : Text → ℤ → Bool → ℤ → Float → Run W Text
  pub destroy : Text → Run W (Unit {0})
  pub exec : Text → Text → ℤ → Option Text → Run W ExecResult
  pub run_script : Text → Text → Text → Text → ℤ → Run W ExecResult
  pub write_file : Text → Text → Text → Encoding → Run W (Unit {0})
  pub read_file : Text → Text → ℕ → Run W Content
  pub list_files : Text → Text → Run W Listing
  pub live_session_ids : Run W (Option (List Text))

-- The status of the answer to a request that raised: the exception handlers, and the framework's 500.
-- A cancelled request has no answer.
unfoldable pub status_of : Exception → Option ℕ
status_of (session_not_found sid) = some 404
status_of (path_not_found message) = some 404
status_of (sandbox_error message) = some 502
status_of (http status message) = some status
status_of cancelled = none
status_of (failure message) = some 500

-- The detail of 429.
unfoldable pub limit_detail : ℕ → ℤ → Text
limit_detail live limit =
    codes "session limit reached ("
    ++ (decimal live
        ++ (codes "/"
            ++ (str_int limit
                ++ codes " live on this replica) — retry once a running session finishes")))

-- The clock before and after `acquire` and at `commit`, and whether the ten seconds of a recount ran
-- out.
pub record Moment : Type 0 where
  pub asked : ℕ
  pub resumed : ℕ
  pub finished : ℕ
  pub too_late : Bool

-- `asyncio.wait_for`: a call that runs out of time has done what it did, and raises.
abbrev pub wait_for : {W A : Type 0} → Bool → Run W A → Run W A
wait_for late run w = if late then (raised (failure (codes "TimeoutError")), (run w).1) else run w

module _ (f : Floats) {W : Type 0} (repr : Text → Text) (cfg : Settings f.Float)
    (p : Provider f.Float W) where
  abbrev pub State : Type 0
  State = Slots × W

  -- A value or an exception, with no change of state.
  abbrev lift : {A : Type 0} → Outcome A → Run State A
  lift o s = (o, s)

  -- The recount of the slots: `provider.live_session_ids` under `wait_for`.
  abbrev pub recount : Moment → Run W (Option (List Text))
  recount m = wait_for m.too_late p.live_session_ids

  abbrev reserved : Outcome Verdict × State → Outcome (Unit {0}) × State
  reserved (ok admitted, st) = (ok tt, st)
  reserved (ok (rejected live), (s, w)) = (raised (http 429 (limit_detail live s.limit)), (s, w))
  reserved (raised e, st) = (raised e, st)

  -- `await slots.acquire()`
  unfoldable pub reserve : Moment → Run State (Unit {0})
  unfolding acquire_with
  reserve m st = reserved (acquire_with (recount m) m.asked m.resumed st)

  abbrev kept : Moment → ℤ → Slots → Outcome Text × W → Outcome Text × State
  kept m timeout s (ok sid, w) = (ok sid, (commit m.finished sid timeout s, w))
  kept m timeout s (raised e, w) = (raised e, (rollback s, w))

  -- The `try` round `provider.create`: `except BaseException` gives the slot back.
  unfoldable pub create_or_rollback : Moment → Text → ℤ → Bool → ℤ → f.Float → Run State Text
  create_or_rollback m image timeout network memory_mb cpus (s, w) =
      kept m timeout s (p.create image timeout network memory_mb cpus w)

  unfoldable pub create_session : Moment → CreateSessionRequest f.Float → Run State Session
  create_session m req = do
    image ← lift (resolve_image repr cfg.default_image cfg.allowed_images req.image)
    let (memory_mb, cpus) = clamp_resources f req.memory_mb req.cpus cfg.max_memory_mb cfg.max_cpus
    let timeout = min_ℤ req.timeout_seconds cfg.max_session_seconds
    reserve m
    sid ← create_or_rollback m image timeout req.network memory_mb cpus
    return (record { session_id = sid; provider = p.name })

  -- A call of the provider that leaves the slots alone.
  abbrev on_provider : {A : Type 0} → Run W A → Run State A
  on_provider run (s, w) = ((run w).0, (s, (run w).1))

  unfoldable pub destroy_session : Text → Run State (Unit {0})
  destroy_session sid (s, w) = on_provider (p.destroy sid) (release sid s, w)

  unfoldable pub exec_command : Text → ExecRequest → Run State ExecResult
  exec_command sid req =
      on_provider
        (p.exec sid req.command (min_ℤ req.timeout_seconds cfg.max_exec_seconds) req.workdir)

  -- `_RUNNERS["python"]` is `("py", "python3")`.
  unfoldable pub run_code : Text → RunRequest → Run State ExecResult
  run_code sid req = on_provider (
      p.run_script sid req.code (codes "python3") (codes "py")
        (min_ℤ req.timeout_seconds cfg.max_exec_seconds))

  unfoldable pub write_file : Text → WriteFileRequest → Run State (Unit {0})
  write_file sid req = on_provider (p.write_file sid req.path req.content req.encoding)

  unfoldable pub read_file : Text → Text → ℕ → Run State Content
  read_file sid path max_bytes = on_provider (p.read_file sid path max_bytes)

  unfoldable pub list_files : Text → Text → Run State Listing
  list_files sid path = on_provider (p.list_files sid path)
