-- ===== src/App/Handlers/Fixtures.antt =====
-- Settings, a request and providers that answer at once, to run the application on.
use llm_sandbox.Prelude.{ltb, ℕ, ◌+◌, ◌≡◌, arith, [], codes, true, false, none}
use llm_sandbox.Prelude.Int.{pos}
use llm_sandbox.Base.Errors.{ok, raised, cancelled, sandbox_error}
use llm_sandbox.Base.Limits.{Floats}
use llm_sandbox.Base.Session.{ExecResult, utf8}
use llm_sandbox.Config.{Settings}
use llm_sandbox.Models.{CreateSessionRequest}
use llm_sandbox.App.Slots.{Slots}
use llm_sandbox.App.Handlers.{Provider, Moment}

-- Floats as tenths.
pub less_asymmetric : (a b : ℕ) → ltb a b ≡ true → ltb b a ≡ false
less_asymmetric a b h = ground arith

abbrev pub floats : Floats
floats = record { Float = ℕ; less = ltb; asymmetric = less_asymmetric; tenth = 1; one = 10 }

abbrev pub settings : Settings ℕ
settings = record {
  provider = codes "gvisor";
  auth_token = [];
  default_image = codes "img";
  allowed_images = [];
  docker_runtime = codes "runsc";
  docker_network = codes "bridge";
  max_output_bytes = pos 1000;
  max_memory_mb = pos 4096;
  max_cpus = 20;
  disk_mb = pos 256;
  max_concurrency = pos 32;
  max_session_seconds = pos 3600;
  max_exec_seconds = pos 600;
  max_request_bytes = pos 1000;
  expose_docs = false;
  max_sessions = pos 2;
  log_payloads = false;
  k8s_namespace = [];
  k8s_runtime_class = [];
  k8s_node_selector = [];
  k8s_toleration = [];
  k8s_create_timeout = pos 120;
  k8s_image_pull_secrets = [];
  k8s_reap_interval = pos 120;
  k8s_allow_no_runtime_class = false;
}

abbrev pub ran : ExecResult
ran = record { stdout = []; stderr = []; exit_code = pos 0; truncated = false; duration_ms = 1 }

-- The world counts the creates.
abbrev pub instant : Provider ℕ ℕ
instant = record {
  name = codes "instant";
  startup = λ n. (ok tt, n);
  shutdown = λ n. (ok tt, n);
  preflight = λ n. (ok tt, n);
  live_session_ids = λ n. (ok none, n);
  create = λ image timeout network memory_mb cpus n. (ok (codes "s1"), n + 1);
  destroy = λ sid n. (raised (sandbox_error (codes "gone")), n);
  exec = λ sid command timeout workdir n. (ok ran, n);
  run_script = λ sid source interpreter ext timeout n. (ok ran, n);
  write_file = λ sid path content encoding n. (ok tt, n);
  read_file =
      λ sid path max_bytes n. (ok (record { text = []; encoding = utf8; truncated = false }), n);
  list_files = λ sid path n. (ok (record { entries = []; truncated = false }), n);
}

abbrev pub dropped : Provider ℕ ℕ
dropped = record instant {
  create = λ image timeout network memory_mb cpus n. (raised cancelled, n);
}

abbrev pub request : CreateSessionRequest ℕ
request = record {
  image = none;
  timeout_seconds = pos 5000;
  network = false;
  memory_mb = pos 99999;
  cpus = 10;
}

abbrev pub at : Moment
at = record { asked = 1; resumed = 2; finished = 3; too_late = false }

abbrev pub fresh : Slots
fresh = record { limit = pos 2; deadlines = []; pending = 1; has_recount = true }
