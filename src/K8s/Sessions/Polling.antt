-- ===== src/K8s/Sessions/Polling.antt =====
-- The loop of `_wait_ready` in src/llm_sandbox/providers/k8s.py: that it ends, and when it ends well.
use llm_sandbox.Prelude.{
  ap, ℕ, zero, suc, ◌+◌, ◌*◌, ◌≤◌, ◌<◌, ◌≡◌, ◌≢◌, refl, arith, true, [], none, some, Text, codes,
  ltb, Bool-cases, inl, inr, ltb→lt,
}
use llm_sandbox.Base.Errors.{Outcome, ok, raised, Run}
use llm_sandbox.K8s.Manifest.{K8s}
use llm_sandbox.K8s.Sessions.{
  Request, Answer, status_request, is_ready, judge, Seen, judged, last_waiting, text_or, ready,
  broken, waits,
}
use llm_sandbox.Prelude.{◌⊎◌, ltb→lt}
use llm_sandbox.K8s.Sessions.{judged, last_waiting, text_or}
use llm_sandbox.K8s.Sessions.Waiting.{
  came_up, gave_up, Ended, paused, seen, asked, rounds, poll, wait_ready, concluded,
}

module _ {W : Type 0} (api : Request → Run W Answer) (pause : ℕ → Run W (Unit {0})) (clock : W → ℕ)
    (k : K8s) where
  paused-ends :
      (go : W → Ended api pause clock k) (before : ℕ) (r : Outcome (Unit {0}) × W)
      → ((w : W) → before < clock w → go w ≢ none)
      → before < clock r.1
      → paused api pause clock k go r ≢ none
  paused-ends go before (ok u, w) h t = h w t
  paused-ends go before (raised e, w) h t = cc

  asked-ends :
      (go : Text → W → Ended api pause clock k) (n before : ℕ) (reason : Text)
      (r : Outcome Answer × W)
      → ((m : ℕ) (w : W) → clock w < clock (pause m w).1)
      → ((reason : Text) (w : W) → before < clock w → go reason w ≢ none)
      → before ≤ clock r.1
      → asked api pause clock k go n reason r ≢ none
  asked-ends go n before reason (raised e, w) p h t = cc
  asked-ends go n before reason (ok a, w) p h t = seen-ends (judge reason a)
    where
      seen-ends : (s : Seen) → seen api pause clock k go n s w ≢ none
      seen-ends ready = cc
      seen-ends (broken r) = cc
      seen-ends (waits r) = paused-ends (go r) before (pause n w) (h r) (omega (arith, p n w))

  rounds-ends :
      (deadline fuel : ℕ) (name : Text) (n : ℕ) (reason : Text) (w : W)
      → ((r : Request) (w : W) → clock w ≤ clock (api r w).1)
      → ((m : ℕ) (w : W) → clock w < clock (pause m w).1)
      → deadline ≤ clock w + fuel
      → rounds api pause clock k deadline (suc fuel) name n reason w ≢ none
  unfolding rounds
  rounds-ends deadline zero name n reason w a p h = elim (Bool-cases (ltb (clock w) deadline)) [
    | inl early ↦ absurd (omega (arith, ltb→lt (clock w) deadline early))
    | inr late ↦ rw late (λ q. cc)
  ]
  rounds-ends deadline (suc fuel) name n reason w a p h =
      elim (Bool-cases (ltb (clock w) deadline)) [
        | inl early ↦ rw early (
            asked-ends (rounds api pause clock k deadline (suc fuel) name (suc n)) n (clock w)
              reason (api (status_request k name) w) p
              (λ r w' late. rounds-ends deadline fuel name (suc n) r w' a p (omega arith))
              (a (status_request k name) w))
        | inr late ↦ rw late (λ q. cc)
      ]

  -- If no call takes the clock back and every pause takes it a tenth of a second on, the loop of
  -- `_wait_ready` ends within its fuel, whatever the API server answers.
  pub poll-ends :
      (name : Text) (w : W)
      → ((r : Request) (w : W) → clock w ≤ clock (api r w).1)
      → ((m : ℕ) (w : W) → clock w < clock (pause m w).1)
      → poll api pause clock k name w ≢ none
  unfolding poll
  poll-ends name w a p =
      rounds-ends (clock w + k.create_timeout * 10) (k.create_timeout * 10) name 0 (codes "unknown")
        w a p (omega arith)

  -- What a pod's status must have been for the loop to end well.
  abbrev pub WasReady : Text → W → Type 0
  WasReady name w' =
      (w : W) × (a : Answer) × (api (status_request k name) w ≡ (ok a, w'))
      × (a.status < 400)
      × (is_ready a.payload.pod ≡ true)

  judged-ready : (phase waiting : Text) → judged phase waiting ≢ ready
  judged-ready phase waiting = ground arith

  came_up-ready :
      (reason : Text) (a : Answer)
      → judge reason a ≡ ready
      → (a.status < 400) × (is_ready a.payload.pod ≡ true)
  unfolding judge
  came_up-ready reason a h = ground (
    arith,
    judged-ready (text_or (codes "Pending") a.payload.pod.phase)
        (last_waiting [] a.payload.pod.waiting),
  )

  paused-came_up :
      (go : W → Ended api pause clock k) (r : Outcome (Unit {0}) × W) (w' : W)
      → paused api pause clock k go r ≡ some (ok came_up, w')
      → (w : W) × (go w ≡ some (ok came_up, w'))
  paused-came_up go (ok u, w) w' h = (w, h)
  paused-came_up go (raised e, w) w' h = absurd (cc)

  seen-came_up :
      (go : Text → W → Ended api pause clock k) (n : ℕ) (s : Seen) (w w' : W)
      → seen api pause clock k go n s w ≡ some (ok came_up, w')
      → ((s ≡ ready) × (w ≡ w')) ⊎ ((r : Text) × (w2 : W) × (go r w2 ≡ some (ok came_up, w')))
  seen-came_up go n ready w w' h = inl (refl, cc)
  seen-came_up go n (broken r) w w' h = absurd (cc)
  seen-came_up go n (waits r) w w' h =
      let (w2, more) = paused-came_up (go r) (pause n w) w' h in inr (r, w2, more)

  asked-came_up :
      (go : Text → W → Ended api pause clock k) (n : ℕ) (reason : Text) (r : Outcome Answer × W)
      (w' : W)
      → asked api pause clock k go n reason r ≡ some (ok came_up, w')
      → ((a : Answer) × (r ≡ (ok a, w')) × (judge reason a ≡ ready))
        ⊎ ((s : Text) × (w2 : W) × (go s w2 ≡ some (ok came_up, w')))
  asked-came_up go n reason (raised e, w) w' h = absurd (cc)
  asked-came_up go n reason (ok a, w) w' h = elim (seen-came_up go n (judge reason a) w w' h) [
    | inl (j, same) ↦ inl (a, ap (λ v. (ok a, v)) same, j)
    | inr later ↦ inr later
  ]

  gave_up_not :
      {reason : Text} {w w' : W}
      → ◌≡◌ {A = Ended api pause clock k} (some (ok (gave_up reason), w)) (some (ok came_up, w'))
      → ⊥
  gave_up_not h = cc

  rounds-came_up :
      (deadline fuel : ℕ) (name : Text) (n : ℕ) (reason : Text) (w w' : W)
      → rounds api pause clock k deadline fuel name n reason w ≡ some (ok came_up, w')
      → WasReady name w'
  unfolding rounds
  rounds-came_up deadline zero name n reason w w' h = absurd (cc)
  rounds-came_up deadline (suc fuel) name n reason w w' h =
      elim (Bool-cases (ltb (clock w) deadline)) [
        | inl early ↦
            elim (asked-came_up (rounds api pause clock k deadline fuel name (suc n)) n reason
              (api (status_request k name) w) w' (rw early at h)) [
                | inl (a, got, j) ↦
                    (w, a, got, (came_up-ready reason a j).0, (came_up-ready reason a j).1)
                | inr (s, w2, more) ↦ rounds-came_up deadline fuel name (suc n) s w2 w' more
              ]
        | inr late ↦ absurd (gave_up_not (rw late at h))
      ]

  -- `_wait_ready` returns only after an answer of the API server, with a status under 400, in which the
  -- pod has the condition `Ready` at `True`.
  pub wait_ready-WasReady :
      (repr : Text → Text) (name image : Text) (w w' : W)
      → wait_ready api pause clock k repr name image w ≡ (ok tt, w')
      → WasReady name w'
  unfolding wait_ready poll
  wait_ready-WasReady repr name image w w' h = go (poll api pause clock k name w) refl h
    where
      go :
          (e : Ended api pause clock k)
          → poll api pause clock k name w ≡ e
          → concluded api pause clock k repr image w e ≡ (ok tt, w')
          → WasReady name w'
      go none p q = absurd (cc)
      go (some (raised e, w2)) p q = absurd (cc)
      go (some (ok (gave_up reason), w2)) p q = absurd (cc)
      go (some (ok came_up, w2)) p q =
          rounds-came_up (clock w + k.create_timeout * 10) (suc (k.create_timeout * 10)) name 0
            (codes "unknown") w w' (cc)
