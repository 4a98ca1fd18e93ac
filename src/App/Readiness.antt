-- ===== src/App/Readiness.antt =====
-- Start and readiness of the service (src/llm_sandbox/app.py): `lifespan`, `healthz` and `readyz`.
-- The world has two parts: what `app.state` says, and the provider's world.
mod Tests
use llm_sandbox.Prelude.{
  ℕ, ◌≡◌, ◌≢◌, refl, ap, ◌⊎◌, inl, inr, Bool, true, false, Option, none, some, Text, codes, List,
  [], ◌∷◌, ◌++◌, if◌then◌else◌,
}
use llm_sandbox.Python.Decimal.{decimal}
use llm_sandbox.Base.Errors.{
  Exception, sandbox_error, session_not_found, path_not_found, http, cancelled, failure, Outcome,
  ok, raised, Run, after, ◌>>=◌, ◌>>◌, return, throw,
}
use llm_sandbox.App.Handlers.{Provider}

-- `app.state`: the attributes are missing until the first preflight has ended.
pub record Readiness : Type 0 where
  pub ready : Option Bool
  pub not_ready_reason : Option Text

abbrev pub unset : Readiness
unset = record { ready = none; not_ready_reason = none }

abbrev pub settled : Bool → Text → Readiness
settled ready reason = record { ready = some ready; not_ready_reason = some reason }

-- `str(exc)`
unfoldable pub message : Exception → Text
message (sandbox_error text) = text
message (session_not_found text) = text
message (path_not_found text) = text
message (http status detail) = decimal status ++ (codes ": " ++ detail)
message cancelled = []
message (failure text) = text

pub record Health : Type 0 where
  pub ok : Bool
  pub provider : Text

-- `getattr(app.state, name, default)`
abbrev attribute : {A : Type 0} → A → Option A → A
attribute default none = default
attribute default (some a) = a

module _ {Float W : Type 0} (p : Provider Float W) where
  abbrev pub State : Type 0
  State = Readiness × W

  -- What the `try` round the preflight makes of its end; `CancelledError` is no `Exception`.
  abbrev marked : Readiness → Outcome (Unit {0}) × W → Outcome (Unit {0}) × State
  marked r (ok _, w) = (ok tt, (settled true [], w))
  marked r (raised cancelled, w) = (raised cancelled, (r, w))
  marked r (raised e, w) = (ok tt, (settled false (message e), w))

  unfoldable pub check : Run State (Unit {0})
  unfolding message
  check (r, w) = marked r (p.preflight w)

  abbrev on_provider : Run W (Unit {0}) → Run State (Unit {0})
  on_provider run (r, w) = ((run w).0, (r, (run w).1))

  -- The end of a `finally`: its own exception wins over the one on the way.
  abbrev finally : Outcome (Unit {0}) → Outcome (Unit {0}) × State → Outcome (Unit {0}) × State
  finally o (ok _, s) = (o, s)
  finally o (raised e, s) = (raised e, s)

  abbrev ended : Outcome (Unit {0}) × State → Outcome (Unit {0}) × State
  ended (o, s) = finally o (on_provider p.shutdown s)

  -- `serve` is what happens at the `yield`: the requests, until the server stops.
  unfoldable pub lifespan : Run State (Unit {0}) → Run State (Unit {0})
  unfolding check
  lifespan serve = on_provider p.startup >> (check >> λ s. ended (serve s))

  unfoldable pub healthz : Run State Health
  healthz = return (record { ok = true; provider = p.name })

  unfoldable pub readyz : Run State Health
  readyz (r, w) =
      if attribute false r.ready
      then (ok (record { ok = true; provider = p.name }), (r, w))
      else (raised (http 503 (attribute (codes "starting") r.not_ready_reason)), (r, w))

  -- What `readyz` answers after a preflight that ended this way.
  abbrev pub Reports : Outcome (Unit {0}) → Outcome Health → Type 0
  Reports (ok _) answer = answer ≡ ok (record { ok = true; provider = p.name })
  Reports (raised e) answer = answer ≡ raised (http 503 (message e))

  -- The state that the requests are served in, and that it is left to `shutdown`.
  abbrev pub Serves :
      Run State (Unit {0}) → Outcome (Unit {0}) → W → Outcome (Unit {0}) × State → Type 0
  Serves serve o w end =
      (r : Readiness) × Reports o (readyz (r, w)).0 × (end.1.1 ≡ (p.shutdown (serve (r, w)).1.1).1)

  finally-state : (o : Outcome (Unit {0})) (q : Outcome (Unit {0}) × State) → (finally o q).1 ≡ q.1
  finally-state o (ok _, s) = refl
  finally-state o (raised e, s) = refl

  ended-shutdown : (e : Outcome (Unit {0}) × State) → (ended e).1.1 ≡ (p.shutdown e.1.1).1
  ended-shutdown (o, s) = ap (λ q. q.1) (finally-state o (on_provider p.shutdown s))

  marked-Serves :
      (serve : Run State (Unit {0})) (r : Readiness) (o : Outcome (Unit {0})) (w : W)
      → o ≢ raised cancelled
      → Serves serve o w (after (λ _ s. ended (serve s)) (marked r (o, w)))
  unfolding readyz message
  marked-Serves serve r (ok _) w h = (settled true [], refl, ended-shutdown _)
  marked-Serves serve r (raised (sandbox_error t)) w h = (settled false t, refl, ended-shutdown _)
  marked-Serves serve r (raised (session_not_found t)) w h =
      (settled false t, refl, ended-shutdown _)
  marked-Serves serve r (raised (path_not_found t)) w h = (settled false t, refl, ended-shutdown _)
  marked-Serves serve r (raised (http n t)) w h = (settled false _, refl, ended-shutdown _)
  marked-Serves serve r (raised cancelled) w h = absurd (h refl)
  marked-Serves serve r (raised (failure t)) w h = (settled false t, refl, ended-shutdown _)

  -- If `startup` returns and `preflight` ends in any way but a cancellation, the service serves its
  -- requests: `readyz` answers that it is ready exactly after a preflight that returned, and with
  -- 503 and the text of the exception after one that raised; and whatever the serving raised,
  -- `shutdown` runs last.
  pub lifespan-Serves :
      (serve : Run State (Unit {0})) (r : Readiness) (o : Outcome (Unit {0})) (w w1 w2 : W)
      → p.startup w ≡ (ok tt, w1)
      → p.preflight w1 ≡ (o, w2)
      → o ≢ raised cancelled
      → Serves serve o w2 (lifespan serve (r, w))
  unfolding lifespan
  lifespan-Serves serve r o w w1 w2 started checked h =
      rw (started, checked) (marked-Serves serve r o w2 h)
