-- ===== src/K8s/Sessions/Cleanup.antt =====
-- `create` and `destroy` of `K8sProvider` (src/llm_sandbox/providers/k8s.py), and what a create that
-- fails leaves behind.
use llm_sandbox.Prelude.{
  ℕ, ◌≡◌, refl, ◌⊎◌, inl, inr, Bool, List, ◌∷◌, Option, none, some, Text, leb, if◌then◌else◌,
  Bool-cases,
}
use llm_sandbox.Prelude.Int.{ℤ}
use llm_sandbox.Base.Errors.{
  Exception, sandbox_error, session_not_found, path_not_found, http, cancelled, failure, Outcome,
  ok, raised, Run, after, ◌>>=◌, return,
}
use llm_sandbox.Base.Session.{or_else}
use llm_sandbox.Python.Json.{Json}
use llm_sandbox.K8s.Manifest.{K8s, manifest}
use llm_sandbox.K8s.Sessions.{Request, Answer, pod, create_request, destroy_request, refusal}
use llm_sandbox.K8s.Sessions.Waiting.{wait_ready}

-- `image or self.default_image`
abbrev pub chosen : K8s → Option Text → Text
chosen k none = k.default_image
chosen k (some image) = or_else image k.default_image

module _ {W : Type 0} (api : Request → Run W Answer) (pause : ℕ → Run W (Unit {0})) (clock : W → ℕ)
    (k : K8s) where
  -- A refusal is only logged.
  unfoldable pub destroy : Text → Run W (Unit {0})
  destroy sid = do a ← api (destroy_request k sid); return tt

  abbrev pub raising : Exception → Outcome (Unit {0}) × W → Outcome Text × W
  raising e (ok _, w) = (raised e, w)
  raising e (raised e', w) = (raised e', w)

  -- `except Exception`, which does not catch `CancelledError`.
  abbrev pub unwound : Text → Outcome (Unit {0}) × W → Outcome Text × W
  unwound sid (ok _, w) = (ok sid, w)
  unwound sid (raised cancelled, w) = (raised cancelled, w)
  unwound sid (raised e, w) = raising e (destroy sid w)

  abbrev pub posted : (Text → Text) → Text → Text → Outcome Answer × W → Outcome Text × W
  posted repr sid image (ok a, w) =
      if leb 400 a.status
      then (raised (sandbox_error (refusal repr k a)), w)
      else unwound sid (wait_ready api pause clock k repr (pod sid) image w)
  posted repr sid image (raised e, w) = (raised e, w)

  -- `sid` is the random id, and `cpus` is `str(cpus)`.
  unfoldable pub create :
      (Text → Text)
      → Text
      → Option Text
      → (timeout : ℤ) → Bool
      → (memory_mb : ℤ) → Text
      → Run W Text
  unfolding destroy
  create repr sid requested timeout network memory_mb cpus w =
      posted repr sid (chosen k requested) (
        api
          (create_request k
            (manifest k (pod sid) (chosen k requested) timeout network memory_mb cpus))
          w)

-- An API server that keeps a log of what it was asked, the last request first.
abbrev pub logged :
    {W : Type 0} → (Request → Run W Answer) → Request → Run (List Request × W) Answer
logged api r (log, w) = ((api r w).0, (r ∷ log, (api r w).1))

abbrev pub unlogged : {W : Type 0} → (ℕ → Run W (Unit {0})) → ℕ → Run (List Request × W) (Unit {0})
unlogged pause n (log, w) = ((pause n w).0, (log, (pause n w).1))

abbrev pub Cleaned : {W : Type 0} → K8s → Text → Json → Outcome Text × (List Request × W) → Type 0
Cleaned k sid body (ok made, (log, w)) = made ≡ sid
Cleaned k sid body (raised cancelled, (log, w)) = Unit
Cleaned k sid body (raised e, (log, w)) =
    (rest : List Request) × ((log ≡ destroy_request k sid ∷ rest)
      ⊎ (log ≡ create_request k body ∷ rest))

module _ {W : Type 0} (api : Request → Run W Answer) (pause : ℕ → Run W (Unit {0})) (clock : W → ℕ)
    (k : K8s) (sid : Text) (body : Json) where
  raised-Cleaned :
      (e : Exception) (log rest : List Request) (w : W)
      → (log ≡ destroy_request k sid ∷ rest) ⊎ (log ≡ create_request k body ∷ rest)
      → Cleaned k sid body (raised e, (log, w))
  raised-Cleaned cancelled log rest w h = tt
  raised-Cleaned (sandbox_error m) log rest w h = (rest, h)
  raised-Cleaned (session_not_found m) log rest w h = (rest, h)
  raised-Cleaned (path_not_found m) log rest w h = (rest, h)
  raised-Cleaned (http s m) log rest w h = (rest, h)
  raised-Cleaned (failure m) log rest w h = (rest, h)

  raising-Cleaned :
      (e : Exception) (o : Outcome (Unit {0})) (log : List Request) (w : W)
      → Cleaned k sid body (
          raising
            (logged api)
            (unlogged pause)
            (λ s. clock s.1)
            k
            e
            (o, (destroy_request k sid ∷ log, w)))
  raising-Cleaned e (ok u) log w = raised-Cleaned e (destroy_request k sid ∷ log) log w (inl refl)
  raising-Cleaned e (raised e') log w =
      raised-Cleaned e' (destroy_request k sid ∷ log) log w (inl refl)

  destroyed-Cleaned :
      (e : Exception) (log : List Request) (w : W) (r : Outcome Answer × W)
      → api (destroy_request k sid) w ≡ r
      → Cleaned k sid body (
          raising
            (logged api)
            (unlogged pause)
            (λ s. clock s.1)
            k
            e
            (destroy (logged api) (unlogged pause) (λ s. clock s.1) k sid (log, w)))
  unfolding destroy
  destroyed-Cleaned e log w (ok a, w') h = rw (h, after) (raising-Cleaned e (ok tt) log w')
  destroyed-Cleaned e log w (raised e', w') h = rw (h, after) (raising-Cleaned e (raised e') log w')

  unwound-Cleaned :
      (r : Outcome (Unit {0}) × (List Request × W))
      → Cleaned k sid body (unwound (logged api) (unlogged pause) (λ s. clock s.1) k sid r)
  unwound-Cleaned (ok u, (log, w)) = refl
  unwound-Cleaned (raised cancelled, (log, w)) = tt
  unwound-Cleaned (raised (sandbox_error m), (log, w)) =
      destroyed-Cleaned (sandbox_error m) log w _ refl
  unwound-Cleaned (raised (session_not_found m), (log, w)) =
      destroyed-Cleaned (session_not_found m) log w _ refl
  unwound-Cleaned (raised (path_not_found m), (log, w)) =
      destroyed-Cleaned (path_not_found m) log w _ refl
  unwound-Cleaned (raised (http s m), (log, w)) = destroyed-Cleaned (http s m) log w _ refl
  unwound-Cleaned (raised (failure m), (log, w)) = destroyed-Cleaned (failure m) log w _ refl

  posted-Cleaned :
      (repr : Text → Text) (image : Text) (log : List Request) (o : Outcome Answer) (w : W)
      → Cleaned k sid body (
          posted
            (logged api)
            (unlogged pause)
            (λ s. clock s.1)
            k
            repr
            sid
            image
            (o, (create_request k body ∷ log, w)))
  posted-Cleaned repr image log (raised e) w =
      raised-Cleaned e (create_request k body ∷ log) log w (inr refl)
  posted-Cleaned repr image log (ok a) w = elim (Bool-cases (leb 400 a.status)) [
    | inl refused ↦ rw refused (log, inr refl)
    | inr taken ↦ rw taken (
        unwound-Cleaned (
          wait_ready (logged api) (unlogged pause) (λ s. clock s.1) k repr (pod sid) image
            (create_request k body ∷ log, w)))
  ]

-- Whatever the API server answers, and however the wait for the pod ends, a create that raises
-- anything but a cancellation has, as its last request, the DELETE of the pod, or else the POST
-- that should have made it; a create that returns gives the id that the pod is named for.
pub create-Cleaned :
    {W : Type 0} (api : Request → Run W Answer) (pause : ℕ → Run W (Unit {0})) (clock : W → ℕ)
    (k : K8s) (repr : Text → Text) (sid cpus : Text) (requested : Option Text)
    (timeout memory_mb : ℤ) (network : Bool) (log : List Request) (w : W)
    → Cleaned k sid (manifest k (pod sid) (chosen k requested) timeout network memory_mb cpus) (
        create
          (logged api)
          (unlogged pause)
          (λ s. clock s.1)
          k
          repr
          sid
          requested
          timeout
          network
          memory_mb
          cpus
          (log, w))
unfolding create
create-Cleaned api pause clock k repr sid cpus requested timeout memory_mb network log w =
    let body = manifest k (pod sid) (chosen k requested) timeout network memory_mb cpus in
    posted-Cleaned api pause clock k sid body repr (chosen k requested) log
      (api (create_request k body) w).0 (api (create_request k body) w).1
