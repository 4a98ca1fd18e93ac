-- ===== src/Providers.antt =====
-- The two backends as providers, and the factory (src/llm_sandbox/providers/__init__.py,
-- providers/gvisor.py, providers/k8s.py): the lifecycle of each with the mixin's in-session
-- operations over its exec transport.
pub mod Logged
pub mod Launch
pub mod Ids
pub mod Recount
mod Tests
use llm_sandbox.Prelude.{
  ℕ, ◌≡◌, refl, Bool, true, false, List, [], ◌∷◌, ◌++◌, Option, none, some, Text, Bytes, codes,
  text_eq, take, if◌then◌else◌,
}
use llm_sandbox.Prelude.Int.{ℤ, pos_part}
use llm_sandbox.Python.Json.{Json}
use llm_sandbox.Base.Errors.{
  Exception, cancelled, failure, Outcome, ok, raised, Run, after, ◌>>=◌, ◌>>◌, return,
}
use llm_sandbox.Base.Session.{Transport}
use llm_sandbox.Base.Stream.{Process}
use llm_sandbox.Config.{Settings}
use llm_sandbox.Models.{FileEntry}
use llm_sandbox.App.Handlers.{Provider}
use llm_sandbox.Gvisor.{Invocation, Gvisor}
use llm_sandbox.K8s.Manifest.{K8s, Arguments, configure}
use llm_sandbox.K8s.Sessions.{Request, Answer}
use llm_sandbox.K8s.Api.{Client}
use llm_sandbox.K8s.Exec.{Socket}

-- What the providers use of Python and of the libraries: `uuid.uuid4().hex`, the clock, `repr` and
-- `str`, `json.loads` of a text and of bytes, and the validation of a listing's entry.
pub record Machine (Float W : Type 0) : Type 0 where
  pub uuid : Run W Text
  pub clock : W → ℕ
  pub repr : Text → Text
  pub show : Float → Text
  pub loads : Text → Option Json
  pub loads_bytes : Bytes → Option Json
  pub validate : Json → Option FileEntry

-- What a provider's own class defines, but for the transport.
pub record Lifecycle (Float W : Type 0) : Type 0 where
  pub name : Text
  pub startup : Run W (Unit {0})
  pub shutdown : Run W (Unit {0})
  pub preflight : Run W (Unit {0})
  pub create : Text → ℤ → Bool → ℤ → Float → Run W Text
  pub destroy : Text → Run W (Unit {0})
  pub live_session_ids : Run W (Option (List Text))

-- The tasks of `K8sProvider`: its HTTP client, and the task of the sweep.
pub record Tasks (W : Type 0) : Type 0 where
  pub start_client : Run W (Unit {0})
  pub close_client : Run W (Unit {0})
  pub start_reaper : Run W (Unit {0})
  -- `self._reaper.cancel()` and `await self._reaper`
  pub stop_reaper : Run W (Unit {0})

module _ {Float W : Type 0} (m : Machine Float W) where
  -- A class over `SessionOpsMixin`.
  abbrev pub with_session_ops : Lifecycle Float W → Transport W → Provider Float W
  with_session_ops l t = record {
    name = l.name;
    startup = l.startup;
    shutdown = l.shutdown;
    preflight = l.preflight;
    create = l.create;
    destroy = l.destroy;
    live_session_ids = l.live_session_ids;
    exec = llm_sandbox.Base.Session.exec t;
    run_script = λ sid code interpreter ext timeout. m.uuid >>= λ random.
        llm_sandbox.Base.Session.run_script t random sid code interpreter ext timeout;
    write_file = λ sid path content encoding. m.uuid >>= λ random.
        llm_sandbox.Base.Session.write_file t (take 8 random) sid path content encoding;
    read_file = llm_sandbox.Base.Session.read_file t;
    list_files = llm_sandbox.Base.Session.Listing.list_files t m.loads m.validate;
  }

  -- `GvisorProvider`
  unfoldable pub gvisor_provider : (Invocation → Run W Process) → Gvisor → Provider Float W
  gvisor_provider spawn g =
      with_session_ops
        (record {
          name = codes "gvisor";
          startup = return tt;
          shutdown = return tt;
          preflight = llm_sandbox.Gvisor.Preflight.preflight spawn g m.repr m.loads;
          create = λ image timeout network memory_mb cpus. m.uuid >>= λ random.
              llm_sandbox.Gvisor.create spawn g m.repr m.show (take 16 random) (some image) timeout
                network memory_mb cpus;
          destroy = llm_sandbox.Gvisor.destroy spawn g;
          live_session_ids = llm_sandbox.Gvisor.live_session_ids spawn g;
        })
        (llm_sandbox.Gvisor.Output.transport spawn g m.clock)

  -- `except asyncio.CancelledError: pass`
  abbrev stopped : Outcome (Unit {0}) × W → Outcome (Unit {0}) × W
  stopped (ok _, w) = (ok tt, w)
  stopped (raised cancelled, w) = (ok tt, w)
  stopped (raised e, w) = (raised e, w)

  -- `K8sProvider`; `shutdown` is that of a provider that has started.
  unfoldable pub k8s_provider :
      (Request → Run W Answer)
      → (ℕ → Run W (Unit {0}))
      → Socket W
      → Tasks W
      → Client
      → K8s
      → Provider Float W
  k8s_provider api pause socket tasks client k =
      with_session_ops
        (record {
          name = codes "k8s";
          startup = tasks.start_client >> tasks.start_reaper;
          shutdown = (λ w. stopped (tasks.stop_reaper w)) >> tasks.close_client;
          preflight = llm_sandbox.K8s.Sessions.Listing.preflight api k m.repr;
          create = λ image timeout network memory_mb cpus. m.uuid >>= λ random.
              llm_sandbox.K8s.Sessions.Cleanup.create api pause m.clock k m.repr (take 16 random)
                (some image) timeout network memory_mb (m.show cpus);
          destroy = llm_sandbox.K8s.Sessions.Cleanup.destroy api pause m.clock k;
          live_session_ids = llm_sandbox.K8s.Sessions.Listing.live_session_ids api k;
        })
        (llm_sandbox.K8s.Exec.Reports.transport socket m.loads_bytes client k m.clock)

-- What `build_provider` makes: the settings of either provider.
pub data Built : Type 0 where
  gvisor : Gvisor → Built
  k8s : K8s → Built

abbrev pub configured : Outcome K8s → Outcome Built
configured (ok k) = ok (k8s k)
configured (raised e) = raised e

-- `build_provider`. A `create_timeout` below 0 is over at once, as 0 is; an output cap below 0,
-- which is no cap, is taken for 0.
unfoldable pub build_provider :
    {Float : Type 0} → (Text → Text) → Text → Settings Float → Outcome Built
unfolding configure
build_provider repr default_namespace cfg =
    if text_eq cfg.provider (codes "gvisor")
    then ok (
        gvisor (record {
          default_image = cfg.default_image;
          docker_runtime = cfg.docker_runtime;
          docker_network = cfg.docker_network;
          max_output_bytes = pos_part cfg.max_output_bytes;
        }))
    else if text_eq cfg.provider (codes "k8s")
    then configured (
        configure default_namespace (record {
          default_image = cfg.default_image;
          namespace = cfg.k8s_namespace;
          runtime_class = cfg.k8s_runtime_class;
          node_selector = cfg.k8s_node_selector;
          toleration = cfg.k8s_toleration;
          create_timeout = pos_part cfg.k8s_create_timeout;
          max_output_bytes = pos_part cfg.max_output_bytes;
          image_pull_secrets = cfg.k8s_image_pull_secrets;
          allow_no_runtime_class = cfg.k8s_allow_no_runtime_class;
          disk_mb = cfg.disk_mb;
        }))
    else raised (
        failure (
          codes "unknown SANDBOX_PROVIDER="
          ++ (repr cfg.provider ++ codes " (expected 'gvisor' or 'k8s')")))
