-- ===== src/Providers/Logged.antt =====
-- A docker that logs its commands, under the provider of src/llm_sandbox/providers/gvisor.py, and the
-- settings that build_provider (src/llm_sandbox/providers/__init__.py) gives that provider.
use llm_sandbox.Prelude.{
  ◌≡◌, refl, ap, ◌∙◌, inl, inr, arith, Bool, true, false, List, ◌∷◌, some, Text, if◌then◌else◌,
}
use llm_sandbox.Prelude.Int.{ℤ}
use llm_sandbox.Base.Errors.{
  Exception, Outcome, ok, raised, Run, after, return, throw, Outcome-cases,
}
use llm_sandbox.Base.Session.{or_else, is_zero}
use llm_sandbox.Base.Stream.{Process, Reply}
use llm_sandbox.Config.{Settings}
use llm_sandbox.Gvisor.{
  Invocation, Gvisor, control, container, create_args, create, docker, live_session_ids,
  list_invocation,
}
use llm_sandbox.App.Handlers.{wait_for}
use llm_sandbox.Providers.{Machine, build_provider, gvisor}

-- A docker that keeps a log of its commands, the last one first.
abbrev pub logged :
    {W : Type 0} → (Invocation → Run W Process) → Invocation → Run (List Invocation × W) Process
logged spawn i (log, w) = ((spawn i w).0, (i ∷ log, (spawn i w).1))

abbrev pub logging : {Float W : Type 0} → Machine Float W → Machine Float (List Invocation × W)
logging m = record {
  uuid = λ s. ((m.uuid s.1).0, (s.0, (m.uuid s.1).1));
  clock = λ s. m.clock s.1;
  repr = m.repr;
  show = m.show;
  loads = m.loads;
  loads_bytes = m.loads_bytes;
  validate = m.validate;
}

after-state :
    {A B S : Type 0} (f : A → Run S B) (r : Outcome A × S)
    → ((a : A) (s : S) → (f a s).1 ≡ s)
    → (after f r).1 ≡ r.1
after-state f (ok a, s) h = h a s
after-state f (raised e, s) h = refl

settled-state :
    {A S : Type 0} (b : Bool) (a : A) (e : Exception) (s : S)
    → ((if b then return a else throw e) s).1 ≡ s
settled-state true a e s = refl
settled-state false a e s = refl

pub build_provider-gvisor :
    {Float : Type 0} (repr : Text → Text) (namespace : Text) (cfg : Settings Float) (g : Gvisor)
    → build_provider repr namespace cfg ≡ ok (gvisor g)
    → (g.default_image ≡ cfg.default_image)
      × (g.docker_runtime ≡ cfg.docker_runtime)
      × (g.docker_network ≡ cfg.docker_network)
unfolding build_provider
build_provider-gvisor repr namespace cfg g h = ground arith

module _ {W : Type 0} (spawn : Invocation → Run W Process) (g : Gvisor) where
  docker-logged :
      (i : Invocation) (log : List Invocation) (w : W)
      → (docker (logged spawn) g i (log, w)).1.0 ≡ i ∷ log
  unfolding docker
  docker-logged i log w = elim (Outcome-cases (spawn i w).0) [
    | inl (process, e) ↦ rw (e, after) refl
    | inr (x, e) ↦ rw (e, after) refl
  ]

  pub create-logged :
      {Float : Type 0} (repr : Text → Text) (show : Float → Text) (sid : Text) (image : Text)
      (timeout : ℤ) (network : Bool) (memory_mb : ℤ) (cpus : Float) (log : List Invocation) (w : W)
      → (create
          (logged spawn)
          g
          repr
          show
          sid
          (some image)
          timeout
          network
          memory_mb
          cpus
          (log, w)).1.0
        ≡ control 60 (
            create_args g
              (container sid)
              (or_else image g.default_image)
              timeout
              network
              memory_mb
              (show cpus))
          ∷ log
  unfolding create
  create-logged repr show sid image timeout network memory_mb cpus log w =
      ap (λ (s : List Invocation × W). s.0)
        (after-state _ _ (λ (reply : Reply) s. settled-state (is_zero reply.rc) _ _ s))
      ∙ docker-logged _ log w

  pub live_session_ids-logged :
      (late : Bool) (log : List Invocation) (w : W)
      → (wait_for late (live_session_ids (logged spawn) g) (log, w)).1.0 ≡ list_invocation ∷ log
  unfolding live_session_ids
  live_session_ids-logged late log w =
      elim late
        as (λ l.
          (wait_for l (live_session_ids (logged spawn) g) (log, w)).1.0 ≡ list_invocation ∷ log) [
            | true ↦ listed
            | false ↦ listed
          ]
    where
      listed : (live_session_ids (logged spawn) g (log, w)).1.0 ≡ list_invocation ∷ log
      listed =
          ap (λ (s : List Invocation × W). s.0) (after-state _ _ (λ (reply : Reply) s. refl))
          ∙ docker-logged list_invocation log w
