-- ===== src/K8s/Sessions/Reaping.antt =====
-- `_reap_loop` of `K8sProvider` (src/llm_sandbox/providers/k8s.py): the sweep of finished pods. A
-- number bounds its rounds, since the loop itself ends only with its task.
use llm_sandbox.Prelude.{
  ℕ, zero, suc, ◌≡◌, ◌≢◌, refl, sym, ap, ◌∙◌, List, [], ◌∷◌, ◌++◌, none, codes,
}
use mathlib.Core.Path.{subst}
use llm_sandbox.Base.Errors.{
  sandbox_error, session_not_found, path_not_found, http, cancelled, failure, Outcome, ok, raised,
  Run, after, ◌>>=◌,
}
use llm_sandbox.K8s.Manifest.{K8s}
use llm_sandbox.K8s.Sessions.{Request, Answer, delete, pods_path, session_label}
use llm_sandbox.K8s.Sessions.Cleanup.{logged, unlogged}

abbrev pub reap_request : K8s → Request
reap_request k = record {
  verb = delete;
  path = pods_path k [];
  params =
      session_label
      ∷ (codes "fieldSelector", codes "status.phase!=Running,status.phase!=Pending")
      ∷ [];
  body = none;
  timeout = 30;
}

module _ {W : Type 0} (api : Request → Run W Answer) (pause : ℕ → Run W (Unit {0})) (k : K8s)
    (interval : ℕ) where
  -- One round, with its two `except` clauses: only `CancelledError` comes out.
  abbrev pub survived : Outcome Answer × W → Outcome (Unit {0}) × W
  survived (ok a, w) = (ok tt, w)
  survived (raised cancelled, w) = (raised cancelled, w)
  survived (raised e, w) = (ok tt, w)

  unfoldable pub round : Run W (Unit {0})
  round w = survived ((pause interval >>= λ _. api (reap_request k)) w)

  unfoldable pub reap_loop : ℕ → Run W (Unit {0})
  unfolding round
  reap_loop zero w = (ok tt, w)
  reap_loop (suc rounds) w = after (λ _. reap_loop rounds) (round w)

abbrev pub repeated : {A : Type 0} → ℕ → A → List A
repeated zero a = []
repeated (suc n) a = a ∷ repeated n a

repeated-append :
    {A : Type 0} (n : ℕ) (a : A) (rest : List A)
    → repeated n a ++ a ∷ rest ≡ a ∷ (repeated n a ++ rest)
repeated-append zero a rest = refl
repeated-append (suc n) a rest = ap (◌∷◌ a) (repeated-append n a rest)

module _ {W : Type 0} (api : Request → Run W Answer) (pause : ℕ → Run W (Unit {0})) (k : K8s)
    (interval : ℕ) where
  -- After so many rounds: still running, with a request of its own for each, after these.
  abbrev pub Sweeps : ℕ → List Request → Outcome (Unit {0}) × (List Request × W) → Type 0
  Sweeps n log r = (r.0 ≡ ok tt) × (r.1.0 ≡ repeated n (reap_request k) ++ log)

  survives :
      (o : Outcome Answer) (s : List Request × W)
      → o ≢ raised cancelled
      → survived (logged api) (unlogged pause) k interval (o, s) ≡ (ok tt, s)
  survives (ok a) s h = refl
  survives (raised (sandbox_error t)) s h = refl
  survives (raised (session_not_found t)) s h = refl
  survives (raised (path_not_found t)) s h = refl
  survives (raised (http n t)) s h = refl
  survives (raised cancelled) s h = absurd (h refl)
  survives (raised (failure t)) s h = refl

  -- The loop, whose rounds each end in this way.
  abbrev looped : ℕ → List Request × W → Outcome (Unit {0}) × (List Request × W)
  looped n s = reap_loop (logged api) (unlogged pause) k interval n s

  one_more :
      (n : ℕ) (log : List Request) (r : Outcome (Unit {0}) × (List Request × W))
      → Sweeps n (reap_request k ∷ log) r
      → Sweeps (suc n) log r
  one_more n log (o, (log', w)) (e, e') = (e, e' ∙ repeated-append n (reap_request k) log)

  -- The world after one round.
  abbrev swept : W → W
  swept w = (api (reap_request k) (pause interval w).1).1

  module _ (sleeps : (w : W) → (pause interval w).0 ≡ ok tt)
      (serves : (w : W) → (api (reap_request k) w).0 ≢ raised cancelled) where
    round_sweeps :
        (log : List Request) (w : W)
        → round (logged api) (unlogged pause) k interval (log, w)
          ≡ (ok tt, (reap_request k ∷ log, swept w))
    unfolding round
    round_sweeps log w = rw (sleeps w, after) (survives _ _ (serves (pause interval w).1))

    -- As long as neither the sleep nor the request is cancelled, the loop outlives every error of the
    -- API server: each round sends its sweep.
    pub reap_loop-Sweeps : (n : ℕ) (log : List Request) (w : W) → Sweeps n log (looped n (log, w))
    unfolding reap_loop
    reap_loop-Sweeps zero log w = (refl, refl)
    reap_loop-Sweeps (suc n) log w =
        subst (Sweeps (suc n) log)
          (sym (
            ap (after (λ _. reap_loop (logged api) (unlogged pause) k interval n))
              (round_sweeps log w)))
          (one_more n log (looped n (reap_request k ∷ log, swept w))
            (reap_loop-Sweeps n (reap_request k ∷ log) (swept w)))
