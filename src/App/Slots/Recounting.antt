-- ===== src/App/Slots/Recounting.antt =====
-- `acquire` of `SessionSlots` (src/llm_sandbox/app.py) with the recount that it awaits: the hook is
-- the provider's `live_session_ids`, under the timeout of `wait_for`, which is one more exception.
use llm_sandbox.Prelude.{ℕ, ◌≡◌, ◌∙◌, ◌⊎◌, inl, inr, refl, ◌<◌, List, Option, none, some, Text}
use llm_sandbox.Base.Errors.{Exception, cancelled, Outcome, ok, raised, Run}
use llm_sandbox.App.Slots.{
  Slots, Verdict, admitted, rejected, rollback, Begun, decided, recounting, Answer, failed, unknown,
  listed, begin, resume, acquire,
}
use llm_sandbox.App.Slots.Dict.{lookup, HasUniqueKeys}
use llm_sandbox.App.Slots.Laws.{
  Spares, acquire_keeps_live, begin_keeps, begin-rollback, resume-rollback, resume_keeps,
}
use llm_sandbox.App.Slots.Rejected.{begin_rejected, resume_rejected, begin-limit, resume-limit}

-- What `_resync` makes of the recount's end: `except Exception` does not catch a cancellation.
abbrev pub answer_of : Outcome (Option (List Text)) → Outcome Answer
answer_of (ok none) = ok unknown
answer_of (ok (some actual)) = ok (listed actual)
answer_of (raised cancelled) = raised cancelled
answer_of (raised e) = ok failed

module _ {W : Type 0} (recount : Run W (Option (List Text))) where
  abbrev resumed_with : ℕ → Slots → Outcome Answer → W → Outcome Verdict × (Slots × W)
  resumed_with later s (ok a) w = (ok (resume later a s).1, ((resume later a s).0, w))
  resumed_with later s (raised e) w = (raised e, (s, w))

  abbrev begun_with : ℕ → Slots → Begun → W → Outcome Verdict × (Slots × W)
  begun_with later s (decided v) w = (ok v, (s, w))
  begun_with later s recounting w = resumed_with later s (answer_of (recount w).0) (recount w).1

  -- `acquire`, at the two readings of the clock.
  unfoldable pub acquire_with : ℕ → ℕ → Run (Slots × W) Verdict
  acquire_with now later (s, w) = begun_with later (begin now s).0 (begin now s).1 w

  begun_with-elim :
      (later : ℕ) (s : Slots) (b : Begun) (w : W) (a : Answer)
      → answer_of (recount w).0 ≡ ok a
      → let r = begun_with later s b w in
        let r' : Slots × Verdict = elim b [ decided v ↦ (s, v) | recounting ↦ resume later a s ] in
        (r.0 ≡ ok r'.1) × (r.1.0 ≡ r'.0)
  begun_with-elim later s (decided v) w a e = (refl, refl)
  begun_with-elim later s recounting w a e = rw e (refl, refl)

  -- If the recount is not cancelled, the verdict and the slots are those of an `acquire` that is given
  -- what the recount amounts to.
  pub acquire_with-acquire :
      (now later : ℕ) (s : Slots) (w : W) (a : Answer)
      → answer_of (recount w).0 ≡ ok a
      → ((acquire_with now later (s, w)).0 ≡ ok (acquire now later a s).1)
        × ((acquire_with now later (s, w)).1.0 ≡ (acquire now later a s).0)
  unfolding acquire_with acquire
  acquire_with-acquire now later s w a e =
      begun_with-elim later (begin now s).0 (begin now s).1 w a e

  -- A session that the recount lists, or that it fails to list since it fails, is kept.
  pub acquire_with_keeps :
      (k : Text) (now later d : ℕ) (s : Slots) (w : W) (a : Answer)
      → answer_of (recount w).0 ≡ ok a
      → Spares k a
      → HasUniqueKeys s.deadlines
      → lookup k s.deadlines ≡ some d
      → now < d
      → later < d
      → lookup k (acquire_with now later (s, w)).1.0.deadlines ≡ some d
  acquire_with_keeps k now later d s w a e spared u held h h' =
      let (_, same) = acquire_with-acquire now later s w a e in
      rw same (acquire_keeps_live k now later d a s u held h h' spared)

  -- `acquire` ends at its first check, or with the recount: cancelled, or with an answer.
  pub acquire_with_cases {ℓ} :
      (P : Outcome Verdict × (Slots × W) → Type ℓ) (now later : ℕ) (s : Slots) (w : W)
      → ((v : Verdict) → (begin now s).1 ≡ decided v → P (ok v, ((begin now s).0, w)))
      → ((e : Exception)
          → (begin now s).1 ≡ recounting
          → P (raised e, ((begin now s).0, (recount w).1)))
      → ((a : Answer)
          → (begin now s).1 ≡ recounting
          → P (
            ok (resume later a (begin now s).0).1,
            ((resume later a (begin now s).0).0, (recount w).1),
          ))
      → P (acquire_with now later (s, w))
  unfolding acquire_with
  acquire_with_cases P now later s w first cut second = by_begun (begin now s).1 refl
    where
      by_answer :
          (o : Outcome Answer)
          → (begin now s).1 ≡ recounting
          → P (resumed_with later (begin now s).0 o (recount w).1)
      by_answer (ok a) e = second a e
      by_answer (raised x) e = cut x e

      by_begun : (b : Begun) → (begin now s).1 ≡ b → P (begun_with later (begin now s).0 b w)
      by_begun (decided v) e = first v e
      by_begun recounting e = by_answer (answer_of (recount w).0) e

  -- The pending creates, against those before: one more if and only if the caller was admitted.
  abbrev pub Balanced : Slots → Outcome Verdict × (Slots × W) → Type 0
  Balanced s (ok admitted, (s', w)) = (rollback s').pending ≡ s.pending
  Balanced s (ok (rejected live), (s', w)) = s'.pending ≡ s.pending
  Balanced s (raised e, (s', w)) = s'.pending ≡ s.pending

  pub acquire_with-Balanced :
      (now later : ℕ) (s : Slots) (w : W) → Balanced s (acquire_with now later (s, w))
  acquire_with-Balanced now later s w =
      acquire_with_cases (Balanced s) now later s w begun (λ x e. (begin_keeps now s e).1)
        (λ a e. resumed a e (resume later a (begin now s).0).1 refl)
    where
      begun : (v : Verdict) → (begin now s).1 ≡ decided v → Balanced s (ok v, ((begin now s).0, w))
      begun admitted e = begin-rollback now s admitted e refl
      begun (rejected live) e = begin_rejected now s (rejected live) live e refl

      resumed :
          (a : Answer)
          → (begin now s).1 ≡ recounting
          → (v : Verdict) → (resume later a (begin now s).0).1 ≡ v
          → Balanced s (ok v, ((resume later a (begin now s).0).0, (recount w).1))
      resumed a e admitted h = resume-rollback now later a s e h
      resumed a e (rejected live) h =
          resume_rejected later a (begin now s).0 live h ∙ (resume_keeps now later a s e).1

  pub acquire_with-limit :
      (now later : ℕ) (s : Slots) (w : W) → (acquire_with now later (s, w)).1.0.limit ≡ s.limit
  acquire_with-limit now later s w =
      acquire_with_cases (λ r. r.1.0.limit ≡ s.limit) now later s w (λ v _. begin-limit now s)
        (λ x _. begin-limit now s) (λ a _. resume-limit later a (begin now s).0 ∙ begin-limit now s)

  -- The provider is asked for its sessions at most once.
  pub acquire_with_asks :
      (now later : ℕ) (s : Slots) (w : W)
      → ((acquire_with now later (s, w)).1.1 ≡ w)
        ⊎ ((acquire_with now later (s, w)).1.1 ≡ (recount w).1)
  acquire_with_asks now later s w =
      acquire_with_cases (λ r. (r.1.1 ≡ w) ⊎ (r.1.1 ≡ (recount w).1)) now later s w
        (λ v _. inl refl) (λ x _. inr refl) (λ a _. inr refl)
