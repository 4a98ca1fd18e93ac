-- ===== src/K8s/Sessions/Tests.antt =====
-- An API server at concrete inputs. Its world is the time, in tenths of a second.
use llm_sandbox.Prelude.{◌≡◌, ◌≢◌, refl, arith, ℕ, ◌+◌, List, [], ◌∷◌, none, some, Text, codes, map}
use llm_sandbox.Prelude.Int.{pos}
use llm_sandbox.Base.Errors.{failure, ok, raised, cancelled, Run}
use llm_sandbox.K8s.Manifest.{K8s, manifest}
use llm_sandbox.K8s.Sessions.{false, Request, get, post, delete, Answer, PodStatus, pod}
use llm_sandbox.K8s.Sessions.Waiting.{poll, wait_ready}
use llm_sandbox.K8s.Sessions.Polling.{poll-ends, wait_ready-WasReady, WasReady}
use llm_sandbox.K8s.Sessions.Cleanup.{create, logged, unlogged, Cleaned, create-Cleaned}
use llm_sandbox.K8s.Sessions.Listing.{live_session_ids, live_session_ids-pods}
use llm_sandbox.K8s.Sessions.Reaping.{reap_loop, Sweeps, reap_loop-Sweeps}

abbrev settings : K8s
settings = record {
  default_image = codes "rt";
  namespace = codes "default";
  runtime_class = codes "gvisor";
  node_selector = [];
  toleration = none;
  image_pull_secrets = [];
  create_timeout = 2;
  max_output_bytes = 9;
  disk_mb = pos 256;
}

abbrev answer : PodStatus → List Text → Answer
answer s names = record {
  status = 200;
  payload = record { message = none; shown = codes "{}"; pod = s; names = map some names };
}

abbrev up : PodStatus
up = record {
  phase = some (codes "Running");
  conditions = (codes "Ready", codes "True") ∷ [];
  waiting = [];
}

abbrev broken_image : PodStatus
broken_image = record {
  phase = some (codes "Pending");
  conditions = [];
  waiting = some (codes "ErrImagePull") ∷ [];
}

abbrev always : PodStatus → Request → Run ℕ Answer
always s r n = (ok (answer s (pod (codes "a") ∷ [])), n)

abbrev tick : ℕ → Run ℕ (Unit {0})
tick m n = (ok tt, n + 1)

abbrev now : ℕ → ℕ
now n = n

poll-ends_example : poll (always broken_image) tick now settings (codes "p") 0 ≢ none
poll-ends_example =
    poll-ends (always broken_image) tick now settings (codes "p") 0 (λ r w. omega arith)
      (λ m w. omega arith)

wait_ready-WasReady_example : WasReady (always up) tick now settings (codes "p") 0
unfolding wait_ready
wait_ready-WasReady_example =
    wait_ready-WasReady (always up) tick now settings (λ s. s) (codes "p") (codes "im") 0 0 refl

create-Cleaned_example :
    Cleaned settings
      (codes "a")
      (manifest settings (pod (codes "a")) (codes "rt") (pos 60) false (pos 64) (codes "1.0"))
      (create
        (logged (always broken_image))
        (unlogged tick)
        (λ s. now s.1)
        settings
        (λ s. s)
        (codes "a")
        none
        (pos 60)
        false
        (pos 64)
        (codes "1.0")
        ([], 0))
create-Cleaned_example =
    create-Cleaned (always broken_image) tick now settings (λ s. s) (codes "a") (codes "1.0") none
      (pos 60) (pos 64) false [] 0

listed_pods_test : live_session_ids (always up) settings 0 ≡ (ok (some (codes "a" ∷ [])), 0)
listed_pods_test =
    live_session_ids-pods (always up) settings (codes "a" ∷ []) (answer up (pod (codes "a") ∷ [])) 0
      0 refl refl

-- A client that drops while the pod comes up.
abbrev dropping : Request → Run ℕ Answer
dropping r n = elim r.verb [
  | get ↦ (raised cancelled, n)
  | post ↦ (ok (answer up []), n)
  | delete ↦ (ok (answer up []), n)
]

-- The POST and one GET, and no DELETE: the pod is left.
cancelled_test :
    let r =
      create
        (logged dropping)
        (unlogged tick)
        (λ s. now s.1)
        settings
        (λ s. s)
        (codes "a")
        none
        (pos 60)
        false
        (pos 64)
        (codes "1.0")
        ([], 0) in
    (r.0 ≡ raised cancelled) × (map (λ q. q.verb) r.1.0 ≡ get ∷ post ∷ [])
unfolding create wait_ready
cancelled_test = (refl, refl)

-- An API server that cannot be reached.
abbrev down : Request → Run ℕ Answer
down r n = (raised (failure (codes "ConnectError")), n + 1)

abbrev slept : ℕ → Run ℕ (Unit {0})
slept seconds n = (ok tt, n)

reap_loop-Sweeps_example :
    Sweeps down slept settings 120 3 []
      (reap_loop (logged down) (unlogged slept) settings 120 3 ([], 0))
reap_loop-Sweeps_example =
    reap_loop-Sweeps down slept settings 120 (λ w. refl) (λ w e. ground arith) 3 [] 0
