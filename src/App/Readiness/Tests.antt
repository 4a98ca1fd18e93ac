-- ===== src/App/Readiness/Tests.antt =====
-- `lifespan` and `readyz` at concrete inputs: a provider whose preflight fails.
use llm_sandbox.Prelude.{ℕ, ◌+◌, ◌≡◌, refl, arith, codes}
use llm_sandbox.Base.Errors.{sandbox_error, cancelled, http, ok, raised, Run}
use llm_sandbox.App.Handlers.{Provider}
use llm_sandbox.App.Handlers.Fixtures.{instant}
use llm_sandbox.App.Readiness.{Readiness, unset, Serves, readyz, lifespan, lifespan-Serves}

-- The world counts the calls; the daemon is not there.
abbrev unreachable : Provider ℕ ℕ
unreachable = record instant {
  startup = λ n. (ok tt, n + 1);
  shutdown = λ n. (ok tt, n + 100);
  preflight = λ n. (raised (sandbox_error (codes "docker daemon unreachable: ")), n + 10);
}

-- The server is interrupted while it serves.
abbrev interrupted : Run (Readiness × ℕ) (Unit {0})
interrupted (r, n) = (raised cancelled, (r, n))

lifespan-Serves_example :
    Serves unreachable interrupted
      (raised (sandbox_error (codes "docker daemon unreachable: ")))
      11
      (lifespan unreachable interrupted (unset, 0))
lifespan-Serves_example =
    lifespan-Serves unreachable interrupted unset
      (raised (sandbox_error (codes "docker daemon unreachable: "))) 0 1 11 refl refl
      (λ e. ground arith)

starting_test : (readyz unreachable (unset, 0)).0 ≡ raised (http 503 (codes "starting"))
unfolding readyz
starting_test = refl

shut_down_test : (lifespan unreachable interrupted (unset, 0)).1.1 ≡ 111
unfolding lifespan
shut_down_test = refl
