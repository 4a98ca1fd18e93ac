-- ===== src/Providers/Launch.antt =====
-- What a request for a session makes of the service and the gVisor provider together
-- (src/llm_sandbox/app.py, src/llm_sandbox/providers/gvisor.py): which commands docker is given.
use llm_sandbox.Prelude.{
  ◌≡◌, ◌⊎◌, Bool, true, List, [], ◌∷◌, ◌++◌, none, Text, codes, elem, drop, if◌then◌else◌,
}
use llm_sandbox.Prelude.Int.{ℤ, pos, ◌≤ℤ◌}
use llm_sandbox.Python.Decimal.{str_int}
use llm_sandbox.Base.Errors.{Outcome, Run}
use llm_sandbox.Base.Limits.{Floats}
use llm_sandbox.Base.Session.{or_else}
use llm_sandbox.Base.Stream.{Process}
use llm_sandbox.Config.{Settings}
use llm_sandbox.Models.{CreateSessionRequest, Session}
use llm_sandbox.App.Slots.{Slots}
use llm_sandbox.App.Handlers.{Moment, create_session, Provider}
use llm_sandbox.App.Handlers.Create.{provided, granted, lifetime}
use llm_sandbox.Gvisor.{list_invocation, Invocation, Gvisor, control, create_args}
use llm_sandbox.Gvisor.Isolation.{read_options, values}
use llm_sandbox.Providers.Logged.{logged, logging}
use llm_sandbox.Providers.{Machine, gvisor_provider}

-- The command line of a container, read as docker reads it.
abbrev pub IsConfined : Gvisor → Text → ℤ → Bool → ℤ → List Text → Type 0
IsConfined g image timeout network memory_mb args =
    let r = read_options none (drop 1 args) in
    (r.1 ≡ image ∷ codes "sleep" ∷ str_int timeout ∷ [])
    × (values (codes "--runtime") r.0 ≡ g.docker_runtime ∷ [])
    × (values (codes "--network") r.0 ≡ (if network then g.docker_network else codes "none") ∷ [])
    × (values (codes "--memory") r.0 ≡ (str_int memory_mb ++ codes "m") ∷ [])
    × (values (codes "--memory-swap") r.0 ≡ values (codes "--memory") r.0)
    × (values (codes "--cap-drop") r.0 ≡ codes "ALL" ∷ [])
    × (values (codes "--security-opt") r.0 ≡ codes "no-new-privileges" ∷ [])
    × (values (codes "--pids-limit") r.0 ≡ codes "256" ∷ [])
    × (values (codes "--privileged") r.0 ≡ [])

-- What a request for a session makes of the log of docker's commands: before all else, at the cap,
-- one listing of the containers; and then nothing, or one more command on top, which runs an allowed
-- image, confined, within the configured ceilings.
abbrev pub Launched :
    (f : Floats) (cfg : Settings f.Float) (g : Gvisor) (network : Bool) (log log' : List Invocation)
    → Type 0
Launched f cfg g network log log' =
    (before : List Invocation) × ((before ≡ log) ⊎ (before ≡ list_invocation ∷ log))
    × ((log' ≡ before)
        ⊎ ((image : Text) × (timeout memory_mb : ℤ) × (args : List Text) × (log'
              ≡ control 60 args ∷ before)
            × ((image ≡ cfg.default_image) ⊎ (elem image cfg.allowed_images ≡ true))
            × (pos 64 ≤ℤ memory_mb)
            × (memory_mb ≤ℤ cfg.max_memory_mb)
            × (timeout ≤ℤ cfg.max_session_seconds)
            × IsConfined g image timeout network memory_mb args))

module _ (f : Floats) {W : Type 0} (m : Machine f.Float W) (spawn : Invocation → Run W Process)
    (cfg : Settings f.Float) (g : Gvisor) where
  abbrev provider : Provider f.Float (List Invocation × W)
  provider = gvisor_provider (logging m) (logged spawn) g

  abbrev asked_for :
      CreateSessionRequest f.Float
      → Text
      → List Invocation × W
      → Outcome Text × (List Invocation × W)
  asked_for req image = provided f m.repr cfg provider req image

  abbrev Logs : CreateSessionRequest f.Float → Text → List Invocation → List Invocation → Type 0
  Logs req image log log' =
      (log' ≡ log)
      ⊎ ((name : Text) × (log'
            ≡ control 60 (
                create_args g name (or_else image g.default_image)
                  (lifetime f m.repr cfg provider req) req.network
                  (granted f m.repr cfg provider req).0
                  (m.show (granted f m.repr cfg provider req).1))
              ∷ log))

  -- The request's answer, the slots, and the world after it.
  abbrev pub answer :
      Moment
      → CreateSessionRequest f.Float
      → Slots
      → List Invocation
      → W
      → Outcome Session × (Slots × (List Invocation × W))
  answer at req s log w = create_session f m.repr cfg provider at req (s, (log, w))

  abbrev log_of : List Invocation × W → List Invocation
  log_of st = st.0
