-- ===== src/K8s/ExitCode/Tests.antt =====
-- Exit codes of concrete statuses.
use llm_sandbox.Prelude.{◌≡◌, refl, [], ◌∷◌, some, codes}
use llm_sandbox.Prelude.Int.{pos}
use llm_sandbox.Python.Decimal.{str_int}
use llm_sandbox.Base.Errors.{ok}
use llm_sandbox.K8s.ExitCode.{exit_code, failed_status, exit_code_of_causes}

reported_cause_test :
    exit_code
      (λ payload.
        some
          (failed_status ((codes "Other", codes "x") ∷ (codes "ExitCode", str_int (pos 124)) ∷ [])))
      (codes "{}")
    ≡ ok (pos 124)
reported_cause_test =
    exit_code_of_causes _ (codes "{}") ((codes "Other", codes "x") ∷ []) [] (pos 124) (cc)
      (refl, tt) refl
