-- ===== src/K8s/Sessions/Waiting.antt =====
-- `_wait_ready` of src/llm_sandbox/providers/k8s.py. The clock is in tenths of a second, the shortest
-- of the delays; `pause n` is the sleep after round `n`, whose length is a float.
use llm_sandbox.Prelude.{
  ℕ, zero, suc, ◌+◌, ◌*◌, [], ◌∷◌, ◌++◌, Option, none, some, Text, codes, any, ltb, if◌then◌else◌,
}
use llm_sandbox.Python.Strings.{starts_with, contains}
use llm_sandbox.Base.Errors.{sandbox_error, failure, Outcome, ok, raised, Run}
use llm_sandbox.Base.Session.{or_else}
use llm_sandbox.K8s.Manifest.{K8s}
use llm_sandbox.K8s.Sessions.{Request, Answer, status_request, judge, Seen, ready, broken, waits}

pub data Waited : Type 0 where
  came_up : Waited
  gave_up : Text → Waited

-- The advice at the end of the error.
abbrev hint : (Text → Text) → Text → Text → Text
hint repr image reason =
    if any (λ w. contains w reason)
      (codes "ErrImagePull" ∷ codes "ImagePullBackOff" ∷ codes "InvalidImageName" ∷ [])
    then codes " — image "
      ++ (repr image
          ++ codes
              " is not pullable from the cluster; push it to your registry, point SANDBOX_IMAGE at it, and set SANDBOX_K8S_IMAGE_PULL_SECRETS if the registry is private")
    else if starts_with (codes "Pending") reason
    then codes
        " — pod unschedulable? check the ai-sandbox instance group is up, that SANDBOX_K8S_NODE_SELECTOR / SANDBOX_K8S_TOLERATION match it, and that the namespace ResourceQuota is not exhausted"
    else []

unfoldable pub not_ready : (Text → Text) → Text → Text → Text
not_ready repr image reason =
    codes "sandbox pod not ready ("
    ++ (or_else reason (codes "unknown") ++ (codes ")" ++ hint repr image reason))

module _ {W : Type 0} (api : Request → Run W Answer) (pause : ℕ → Run W (Unit {0})) (clock : W → ℕ)
    (k : K8s) where
  -- How the loop ended; `none` if the fuel did not last.
  abbrev pub Ended : Type 0
  Ended = Option (Outcome Waited × W)

  abbrev pub paused : (W → Ended) → Outcome (Unit {0}) × W → Ended
  paused go (ok _, w) = go w
  paused go (raised e, w) = some (raised e, w)

  abbrev pub seen : (Text → W → Ended) → ℕ → Seen → W → Ended
  seen go n ready w = some (ok came_up, w)
  seen go n (broken reason) w = some (ok (gave_up reason), w)
  seen go n (waits reason) w = paused (go reason) (pause n w)

  abbrev pub asked : (Text → W → Ended) → ℕ → Text → Outcome Answer × W → Ended
  asked go n reason (ok a, w) = seen go n (judge reason a) w
  asked go n reason (raised e, w) = some (raised e, w)

  -- The `while` loop, from round `n` on.
  unfoldable pub rounds : ℕ → ℕ → Text → ℕ → Text → W → Ended
  unfolding judge
  rounds deadline zero name n reason w = none
  rounds deadline (suc fuel) name n reason w =
      if ltb (clock w) deadline
      then asked (rounds deadline fuel name (suc n)) n reason (api (status_request k name) w)
      else some (ok (gave_up reason), w)

  -- The loop of `_wait_ready`, a round for each tenth of a second and one more.
  unfoldable pub poll : Text → W → Ended
  unfolding rounds
  poll name w =
      rounds (clock w + k.create_timeout * 10) (suc (k.create_timeout * 10)) name 0
        (codes "unknown") w

  abbrev pub concluded : (Text → Text) → Text → W → Ended → Outcome (Unit {0}) × W
  concluded repr image w (some (ok came_up, w')) = (ok tt, w')
  concluded repr image w (some (ok (gave_up reason), w')) =
      (raised (sandbox_error (not_ready repr image reason)), w')
  concluded repr image w (some (raised e, w')) = (raised e, w')
  concluded repr image w none = (raised (failure (codes "out of fuel")), w)

  unfoldable pub wait_ready : (Text → Text) → Text → Text → Run W (Unit {0})
  unfolding poll
  wait_ready repr name image w = concluded repr image w (poll name w)
