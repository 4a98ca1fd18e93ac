-- ===== src/Providers/Tests.antt =====
-- The service over gVisor at a concrete request.
use llm_sandbox.Prelude.{
  true, ℕ, ◌+◌, ◌≡◌, refl, arith, [], none, some, codes, Text, true, ◌∷◌, false,
}
use llm_sandbox.Prelude.Int.{pos}
use llm_sandbox.Base.Errors.{ok, Run}
use llm_sandbox.Base.Stream.{Process, exited}
use llm_sandbox.App.Slots.{Slots}
use llm_sandbox.App.Handlers.{create_session}
use llm_sandbox.App.Handlers.Fixtures.{floats, settings, request, at, fresh}
use llm_sandbox.Gvisor.{Invocation, Gvisor}
use llm_sandbox.Providers.{Machine, gvisor}
use llm_sandbox.Gvisor.{live_session_ids}
use llm_sandbox.App.Slots.{admitted}
use llm_sandbox.App.Slots.Dict.{lookup}
use llm_sandbox.App.Slots.Recounting.{acquire_with}
use llm_sandbox.Python.Utf8.{encode}
use llm_sandbox.Python.Strings.{is_space}
use llm_sandbox.Providers.Recount.{acquire_with_keeps_running}
use llm_sandbox.App.Auth.{is_session_id}
use llm_sandbox.Providers.{gvisor_provider}
use llm_sandbox.Providers.Ids.{IsUuid, gvisor_create-IsSessionId}
use llm_sandbox.Providers.Launch.{answer}

abbrev machine : Machine ℕ ℕ
machine = record {
  uuid = λ n. (ok (codes "0123456789abcdef0123456789abcdef"), n + 1);
  clock = λ n. n;
  repr = λ t. t;
  show = λ tenths. codes "1.0";
  loads = λ t. none;
  loads_bytes = λ bytes. none;
  validate = λ v. none;
}

abbrev docker_here : Invocation → Run ℕ Process
docker_here i n = (ok (exited (some (pos 0)) [] []), n + 1)

abbrev built : Gvisor
built = record {
  default_image = codes "img";
  docker_runtime = codes "runsc";
  docker_network = codes "bridge";
  max_output_bytes = 1000;
}

made_test :
    (answer floats machine docker_here settings built at request fresh [] 0).0
    ≡ ok (record { session_id = codes "0123456789abcdef"; provider = codes "gvisor" })
unfolding create_session llm_sandbox.App.Auth.resolve_image llm_sandbox.App.Handlers.reserve
    llm_sandbox.App.Slots.acquire llm_sandbox.App.Slots.begin llm_sandbox.App.Slots.Dict.pop_all
    llm_sandbox.App.Slots.Dict.expired llm_sandbox.App.Handlers.create_or_rollback
    llm_sandbox.Providers.gvisor_provider llm_sandbox.Gvisor.create llm_sandbox.Base.Stream.run_cli
made_test = refl

-- A full replica: docker still has `a`, and `b` has gone.
abbrev full : Slots
full = record {
  limit = pos 2;
  deadlines = (codes "a", 90) ∷ (codes "b", 80) ∷ [];
  pending = 0;
  has_recount = true;
}

abbrev lister : Invocation → Run ℕ Process
lister i n = (ok (exited (some (pos 0)) (codes "llmsbx_a\n" ∷ []) []), n + 1)

acquire_with_keeps_running_example :
    lookup (codes "a") (acquire_with (live_session_ids lister built) 10 20 (full, 0)).1.0.deadlines
    ≡ some 90
unfolding lookup encode is_space
acquire_with_keeps_running_example =
    acquire_with_keeps_running lister built (codes "a") 10 20 90 full (codes "a" ∷ [])
      (codes "llmsbx_a\n" ∷ []) [] 0 1 ((refl, tt), tt) (omega arith) (cc, tt) refl refl refl
      (refl, (refl, tt)) refl (omega arith) (omega arith)

admitted_test : (acquire_with (live_session_ids lister built) 10 20 (full, 0)).0 ≡ ok admitted
unfolding acquire_with llm_sandbox.App.Slots.begin llm_sandbox.App.Slots.Dict.pop_all
    llm_sandbox.App.Slots.Dict.expired live_session_ids llm_sandbox.Base.Stream.run_cli
    llm_sandbox.App.Slots.resume llm_sandbox.App.Slots.Dict.stale llm_sandbox.Python.Strings.words
    llm_sandbox.Python.Utf8.decode llm_sandbox.Python.Strings.starts_with
    llm_sandbox.App.Slots.Dict.pop
admitted_test = refl

hexadecimal : (w w' : ℕ) (random : Text) → machine.uuid w ≡ (ok random, w') → IsUuid random
hexadecimal w w' random e =
    let same : random ≡ codes "0123456789abcdef0123456789abcdef" = ground arith in
    rw same (refl, refl)

gvisor_create-IsSessionId_example : is_session_id (codes "0123456789abcdef") ≡ true
unfolding gvisor_provider llm_sandbox.Gvisor.create llm_sandbox.Base.Stream.run_cli
gvisor_create-IsSessionId_example =
    gvisor_create-IsSessionId machine docker_here built hexadecimal (codes "img")
      (codes "0123456789abcdef") (pos 60) false (pos 512) 10 0 refl
