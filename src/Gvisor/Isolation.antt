-- ===== src/Gvisor/Isolation.antt =====
-- What `docker run` reads in the arguments of `GvisorProvider.create`
-- (src/llm_sandbox/providers/gvisor.py): options up to `--`, then the image and its command.
use llm_sandbox.Prelude.{
  ◌≡◌, refl, Bool, true, false, List, [], ◌∷◌, ◌++◌, Option, none, some, Text, codes, text_eq, elem,
  if◌then◌else◌, drop,
}
use llm_sandbox.Prelude.Int.{ℤ}
use llm_sandbox.Python.Decimal.{str_int}
use llm_sandbox.Python.Strings.{starts_with}
use llm_sandbox.Gvisor.{Gvisor, create_args}

-- The options that are followed by a value.
abbrev pub takes_value : Text → Bool
takes_value option = elem option (
    codes "--name"
    ∷ codes "--runtime"
    ∷ codes "--network"
    ∷ codes "--memory"
    ∷ codes "--memory-swap"
    ∷ codes "--cpus"
    ∷ codes "--pids-limit"
    ∷ codes "--cap-drop"
    ∷ codes "--security-opt"
    ∷ codes "--workdir"
    ∷ [])

abbrev pub Options : Type 0
Options = List (Text × Text)

abbrev also : Text → Text → Options × List Text → Options × List Text
also option value (options, rest) = ((option, value) ∷ options, rest)

-- An option that waits for its value takes the next argument, whatever it is; `--` or the first
-- argument without a dash ends the options.
pub read_options : Option Text → List Text → Options × List Text
unfolding starts_with
read_options waiting [] = ([], [])
read_options (some option) (value ∷ args) = also option value (read_options none args)
read_options none (arg ∷ args) = elim (text_eq arg (codes "--")) [
  | true ↦ ([], args)
  | false ↦ elim (takes_value arg) [
    | true ↦ read_options (some arg) args
    | false ↦ elim (starts_with (codes "-") arg) [
      | true ↦ also arg [] (read_options none args)
      | false ↦ ([], arg ∷ args)
    ]
  ]
]

-- The values that an option is given.
abbrev pub values : Text → Options → List Text
values option [] = []
values option ((o, v) ∷ os) =
    let rest = values option os in if text_eq option o then v ∷ rest else rest

-- Whatever image the caller asks for, one that begins with a dash included, it is read as the image
-- and followed by `sleep` and the lifetime; the options give the container the configured runtime,
-- no network unless it was asked for, the memory limit as its swap limit too, at most 256 processes,
-- no capabilities and no new privileges, each once.
pub create_args-isolated :
    (g : Gvisor) (name image cpus : Text) (timeout memory_mb : ℤ) (network : Bool)
    → let r =
        read_options none (drop 1 (create_args g name image timeout network memory_mb cpus)) in
      (r.1 ≡ image ∷ codes "sleep" ∷ str_int timeout ∷ [])
      × (values (codes "--runtime") r.0 ≡ g.docker_runtime ∷ [])
      × (values (codes "--network") r.0 ≡ (if network then g.docker_network else codes "none") ∷ [])
      × (values (codes "--memory") r.0 ≡ (str_int memory_mb ++ codes "m") ∷ [])
      × (values (codes "--memory-swap") r.0 ≡ values (codes "--memory") r.0)
      × (values (codes "--cap-drop") r.0 ≡ codes "ALL" ∷ [])
      × (values (codes "--security-opt") r.0 ≡ codes "no-new-privileges" ∷ [])
      × (values (codes "--pids-limit") r.0 ≡ codes "256" ∷ [])
      × (values (codes "--privileged") r.0 ≡ [])
unfolding read_options create_args
create_args-isolated g name image cpus timeout memory_mb network =
    (refl, refl, refl, refl, refl, refl, refl, refl, refl)
