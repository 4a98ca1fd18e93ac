-- ===== src/Config.antt =====
-- src/llm_sandbox/config.py: the `.env` file and the settings that the environment gives.
pub mod Laws
mod Tests
use llm_sandbox.Prelude.{
  ℕ, Bool, true, false, ◌||◌, not, List, [], ◌∷◌, ◌++◌, Option, none, some, Text, codes, text_eq,
  elem, ◌==◌, if◌then◌else◌, ◌≡◌, refl, any,
}
use llm_sandbox.Prelude.Int.{ℤ, pos}
use llm_sandbox.Python.Decimal.{int, str_int}
use llm_sandbox.Python.Strings.{strip, strip_char, partition, split, splitlines, starts_with, lower}

-- The process environment: name and value, each name once.
abbrev pub Environ : Type 0
Environ = List (Text × Text)

unfoldable pub get : Text → Environ → Option Text
get name [] = none
get name ((k, v) ∷ env) = if text_eq k name then some v else get name env

-- `os.environ.setdefault(key, val)`: a variable that is set wins.
unfoldable pub set_default : Text → Text → Environ → Environ
unfolding get
set_default key val env = elim (get key env) [ none ↦ env ++ (key, val) ∷ [] | some v ↦ env ]

-- One line of the `.env` file: nothing for a blank line, a comment, or a line with no `=`.
unfoldable pub dotenv_entry : Text → Option (Text × Text)
dotenv_entry raw =
    let line = strip raw in
    let (key, found, val) = partition b'=' line in
    if starts_with (codes "#") line || not found
    then none
    else some (strip key, strip_char 39 (strip_char 34 (strip val)))

pub load_lines : List Text → Environ → Environ
unfolding dotenv_entry set_default
load_lines [] env = env
load_lines (raw ∷ lines) env = elim (dotenv_entry raw) [
  | none ↦ load_lines lines env
  | some (key, val) ↦ load_lines lines (set_default key val env)
]

-- `_load_local_dotenv`, of the file's text if there is a file.
unfoldable pub load_dotenv : Option Text → Environ → Environ
unfolding load_lines
load_dotenv none env = env
load_dotenv (some text) env = load_lines (splitlines text) env

-- `_env`
unfoldable pub env_or : Environ → Text → Text → Text
unfolding get
env_or env name default = elim (get name env) [ none ↦ default | some v ↦ v ]

abbrev int_or : ℤ → Text → Option ℤ
int_or default [] = some default
int_or default (c ∷ cs) = int (c ∷ cs)

-- `_int`; `none` is the `ValueError` of a text that is no integer.
unfoldable pub env_int : Environ → Text → ℤ → Option ℤ
unfolding env_or
env_int env name default = int_or default (env_or env name (str_int default))

-- `_flag`
unfoldable pub env_flag : Environ → Text → Bool → Bool
unfolding env_or
env_flag env name default =
    elem (lower (strip (env_or env name (if default then codes "1" else codes "0"))))
      (codes "1" ∷ codes "true" ∷ codes "yes" ∷ codes "on" ∷ [])

-- `[s.strip() for s in raw.split(",") if s.strip()]`
pub strip_parts : List Text → List Text
strip_parts [] = []
strip_parts (s ∷ ss) = elim (strip s) [ [] ↦ strip_parts ss | c ∷ cs ↦ (c ∷ cs) ∷ strip_parts ss ]

unfoldable pub comma_list : Text → List Text
unfolding strip_parts
comma_list raw = strip_parts (split b',' raw)

pub record Settings (Float : Type 0) : Type 0 where
  pub provider : Text
  pub auth_token : Text
  pub default_image : Text
  pub allowed_images : List Text
  pub docker_runtime : Text
  pub docker_network : Text
  pub max_output_bytes : ℤ
  pub max_memory_mb : ℤ
  pub max_cpus : Float
  pub disk_mb : ℤ
  pub max_concurrency : ℤ
  pub max_session_seconds : ℤ
  pub max_exec_seconds : ℤ
  pub max_request_bytes : ℤ
  pub expose_docs : Bool
  pub max_sessions : ℤ
  pub log_payloads : Bool
  pub k8s_namespace : Text
  pub k8s_runtime_class : Text
  pub k8s_node_selector : Text
  pub k8s_toleration : Text
  pub k8s_create_timeout : ℤ
  pub k8s_image_pull_secrets : Text
  pub k8s_reap_interval : ℤ
  pub k8s_allow_no_runtime_class : Bool

infixl 5 ◌>>=◌
abbrev ◌>>=◌ : {A B : Type 0} → Option A → (A → Option B) → Option B
none >>= f = none
some a >>= f = f a

abbrev nonempty_or : Text → Text → Text
nonempty_or [] default = default
nonempty_or (c ∷ cs) default = c ∷ cs

-- `Config.from_env`, where `float` reads a number: `float(...)`, or `none` for its `ValueError`.
unfoldable pub from_env :
    {Float : Type 0} → (Text → Option Float) → Environ → Option (Settings Float)
unfolding env_or env_int env_flag comma_list
from_env float env = do
  max_output_bytes ← env_int env (codes "SANDBOX_MAX_OUTPUT_BYTES") (pos 1000000)
  max_memory_mb ← env_int env (codes "SANDBOX_MAX_MEMORY_MB") (pos 4096)
  max_cpus ← float (nonempty_or (env_or env (codes "SANDBOX_MAX_CPUS") (codes "2")) (codes "2"))
  disk_mb ← env_int env (codes "SANDBOX_DISK_MB") (pos 256)
  max_concurrency ← env_int env (codes "SANDBOX_MAX_CONCURRENCY") (pos 32)
  max_session_seconds ← env_int env (codes "SANDBOX_MAX_SESSION_SECONDS") (pos 3600)
  max_exec_seconds ← env_int env (codes "SANDBOX_MAX_EXEC_SECONDS") (pos 600)
  max_request_bytes ← env_int env (codes "SANDBOX_MAX_REQUEST_BYTES") (pos 33554432)
  max_sessions ← env_int env (codes "SANDBOX_MAX_SESSIONS") (pos 24)
  k8s_create_timeout ← env_int env (codes "SANDBOX_K8S_CREATE_TIMEOUT") (pos 120)
  k8s_reap_interval ← env_int env (codes "SANDBOX_K8S_REAP_INTERVAL") (pos 120)
  some (record {
    provider = lower (strip (env_or env (codes "SANDBOX_PROVIDER") (codes "gvisor")));
    auth_token = env_or env (codes "LLM_SANDBOX_TOKEN") [];
    default_image = env_or env (codes "SANDBOX_IMAGE") (codes "llm-sandbox-runtime:latest");
    allowed_images = comma_list (env_or env (codes "SANDBOX_ALLOWED_IMAGES") []);
    docker_runtime = env_or env (codes "SANDBOX_DOCKER_RUNTIME") (codes "runsc");
    docker_network = env_or env (codes "SANDBOX_DOCKER_NETWORK") (codes "bridge");
    max_output_bytes = max_output_bytes;
    max_memory_mb = max_memory_mb;
    max_cpus = max_cpus;
    disk_mb = disk_mb;
    max_concurrency = max_concurrency;
    max_session_seconds = max_session_seconds;
    max_exec_seconds = max_exec_seconds;
    max_request_bytes = max_request_bytes;
    expose_docs = env_flag env (codes "SANDBOX_EXPOSE_DOCS") false;
    max_sessions = max_sessions;
    log_payloads = env_flag env (codes "SANDBOX_LOG_PAYLOADS") true;
    k8s_namespace = env_or env (codes "SANDBOX_K8S_NAMESPACE") [];
    k8s_runtime_class = env_or env (codes "SANDBOX_K8S_RUNTIME_CLASS") (codes "gvisor");
    k8s_node_selector =
        env_or env (codes "SANDBOX_K8S_NODE_SELECTOR")
          (codes "kops.k8s.io/instancegroup=ai-sandbox");
    k8s_toleration =
        env_or env (codes "SANDBOX_K8S_TOLERATION") (codes "dedicated=ai-sandbox:NoSchedule");
    k8s_create_timeout = k8s_create_timeout;
    k8s_image_pull_secrets = env_or env (codes "SANDBOX_K8S_IMAGE_PULL_SECRETS") [];
    k8s_reap_interval = k8s_reap_interval;
    k8s_allow_no_runtime_class = env_flag env (codes "SANDBOX_K8S_ALLOW_NO_RUNTIME_CLASS") false;
  })
