-- ===== src/Gvisor.antt =====
-- `GvisorProvider` of src/llm_sandbox/providers/gvisor.py, over the `docker` command: one container
-- for each session. The semaphores only delay a call; log lines are left out.
pub mod Output
pub mod Isolation
pub mod Containers
pub mod Preflight
mod Tests
use llm_sandbox.Prelude.{
  ℕ, ◌+◌, Bool, true, false, ◌&&◌, ◌||◌, not, List, [], ◌∷◌, ◌++◌, Option, none, some, Text, Bytes,
  codes, text_eq, any, drop, length, if◌then◌else◌, keep, map,
}
use llm_sandbox.Prelude.Int.{ℤ, pos}
use llm_sandbox.Python.Decimal.{str_int}
use llm_sandbox.Python.Strings.{strip, strip_bytes, words, starts_with, contains, lower}
use llm_sandbox.Python.Utf8.{decode, encode}
use llm_sandbox.Base.Errors.{
  Exception, sandbox_error, session_not_found, Outcome, ok, raised, Run, ◌>>=◌, ◌>>◌, return, throw,
}
use llm_sandbox.Base.Stream.{Process, Reply, run_cli}
use llm_sandbox.Base.Session.{workspace, Call, Transport, or_else, is_zero}

-- A run of `docker`: its arguments, and what `_docker` passes on to `run_cli`.
pub record Invocation : Type 0 where
  pub args : List Text
  pub stdin : Option Bytes
  pub timeout : Option ℕ
  pub max_bytes : Option ℕ

pub record Gvisor : Type 0 where
  pub default_image : Text
  pub docker_runtime : Text
  pub docker_network : Text
  pub max_output_bytes : ℕ

abbrev pub name_prefix : Text
name_prefix = codes "llmsbx_"

-- `_container`
abbrev pub container : Text → Text
container sid = name_prefix ++ sid

-- A call with no input and no cap.
abbrev pub control : ℕ → List Text → Invocation
control seconds args = record {
  args = args;
  stdin = none;
  timeout = some seconds;
  max_bytes = none;
}

abbrev interactive : Option Bytes → List Text
interactive none = []
interactive (some stdin) = codes "-i" ∷ []

unfoldable pub exec_invocation : Gvisor → Text → Call → Invocation
exec_invocation g sid call = record {
  args = codes "exec" ∷ (interactive call.stdin ++ container sid ∷ call.argv);
  stdin = call.stdin;
  timeout = some call.timeout;
  max_bytes = some (g.max_output_bytes + 1);
}

-- The daemon's words for a container that is not there; a command can write them too.
unfoldable pub looks_missing : Reply → Bool
looks_missing reply =
    not (is_zero reply.rc)
    && starts_with (codes "Error response from daemon:") reply.err
    && (contains (codes "No such container") reply.err
        || contains (codes "is not running") reply.err)

abbrev pub inspect_invocation : Text → Invocation
inspect_invocation sid =
    control 15 (codes "inspect" ∷ codes "-f" ∷ codes "{{.State.Running}}" ∷ container sid ∷ [])

abbrev pub list_invocation : Invocation
list_invocation = control 15 (
    codes "ps"
    ∷ codes "--filter"
    ∷ (codes "name=^" ++ name_prefix)
    ∷ codes "--format"
    ∷ codes "{{.Names}}"
    ∷ [])

-- The arguments of `create`; `cpus` is `str(cpus)`.
unfoldable pub create_args : Gvisor → Text → Text → ℤ → Bool → ℤ → Text → List Text
create_args g name image timeout network memory_mb cpus =
    codes "run"
    ∷ codes "-d"
    ∷ codes "--rm"
    ∷ codes "--name"
    ∷ name
    ∷ codes "--runtime"
    ∷ g.docker_runtime
    ∷ codes "--network"
    ∷ (if network then g.docker_network else codes "none")
    ∷ codes "--memory"
    ∷ (str_int memory_mb ++ codes "m")
    ∷ codes "--memory-swap"
    ∷ (str_int memory_mb ++ codes "m")
    ∷ codes "--cpus"
    ∷ cpus
    ∷ codes "--pids-limit"
    ∷ codes "256"
    ∷ codes "--cap-drop"
    ∷ codes "ALL"
    ∷ codes "--security-opt"
    ∷ codes "no-new-privileges"
    ∷ codes "--workdir"
    ∷ workspace
    ∷ codes "--"
    ∷ image
    ∷ codes "sleep"
    ∷ str_int timeout
    ∷ []

-- Why `create` failed, from what docker wrote; `repr` is that of `str`.
unfoldable pub create_error : (Text → Text) → Gvisor → Text → Text → Text
create_error repr g image msg =
    let low = lower msg in
    if contains (codes "unknown or invalid runtime") low
    then codes "Docker runtime "
      ++ (repr g.docker_runtime
          ++ (codes
                " is not available. On a host without gVisor (e.g. macOS Docker Desktop) set SANDBOX_DOCKER_RUNTIME=runc — the standard runtime, NO isolation, dev only. (docker: "
              ++ (msg ++ codes ")")))
    else if any (λ s. contains s low)
        (codes "pull access denied"
          ∷ codes "no such image"
          ∷ codes "not found"
          ∷ codes "manifest unknown"
          ∷ [])
    then codes "Sandbox image "
      ++ (repr image
          ++ (codes " not found — build it first: `docker build -f sandbox.Dockerfile -t "
              ++ (g.default_image ++ (codes " .` (docker: " ++ (msg ++ codes ")")))))
    else codes "sandbox create failed: " ++ msg

-- `{line[len(prefix):] for line in text.split() if line.startswith(prefix)}`, as a list.
unfoldable pub session_names : Text → List Text
session_names out = map (drop (length name_prefix)) (keep (starts_with name_prefix) (words out))

module _ {W : Type 0} (spawn : Invocation → Run W Process) (g : Gvisor) where
  -- `_docker`
  unfoldable pub docker : Invocation → Run W Reply
  docker i = do process ← spawn i; return (run_cli i.max_bytes process)

  unfoldable pub is_running : Text → Run W Bool
  unfolding docker
  is_running sid = do
    reply ← docker (inspect_invocation sid)
    return (is_zero reply.rc && text_eq (strip_bytes reply.out) (codes "true"))

  unfoldable pub exec_cli : Text → Call → Run W Reply
  unfolding docker is_running
  exec_cli sid call = do
    reply ← docker (exec_invocation g sid call)
    if looks_missing reply
        then (is_running sid >>= λ running.
            if running then return reply else throw (session_not_found sid))
        else return reply

  -- `image or self.default_image`
  abbrev pub chosen : Option Text → Text
  chosen none = g.default_image
  chosen (some image) = or_else image g.default_image

  -- `sid` is the random id; `image` is none for the default one, `show` is `str` of a float.
  unfoldable pub create :
      {Float : Type 0}
      → (Text → Text)
      → (Float → Text)
      → Text
      → Option Text
      → ℤ
      → Bool
      → ℤ
      → Float
      → Run W Text
  unfolding docker create_args create_error
  create repr show sid requested timeout network memory_mb cpus = do
    let image = chosen requested
    reply ←
        docker
          (control 60 (create_args g (container sid) image timeout network memory_mb (show cpus)))
    if is_zero reply.rc
        then return sid
        else throw (sandbox_error (create_error repr g image (strip (decode reply.err))))

  unfoldable pub destroy : Text → Run W (Unit {0})
  unfolding docker
  destroy sid = do
    reply ← docker (control 30 (codes "rm" ∷ codes "-f" ∷ container sid ∷ []))
    return tt

  unfoldable pub live_session_ids : Run W (Option (List Text))
  unfolding docker session_names
  live_session_ids = do
    reply ← docker list_invocation
    return (if is_zero reply.rc then some (session_names (decode reply.out)) else none)
