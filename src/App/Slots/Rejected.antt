-- ===== src/App/Slots/Rejected.antt =====
-- What an `acquire` of `SessionSlots` (src/llm_sandbox/app.py) leaves alone: the limit, and on a
-- rejection the pending creates.
use llm_sandbox.Prelude.{ℕ, ◌≡◌, ◌∙◌, arith}
use llm_sandbox.App.Slots.{
  Slots, Verdict, rejected, decided, Answer, begin, resync, resume, admit, acquire,
}
use llm_sandbox.App.Slots.Cap.{resync_keeps}
use llm_sandbox.App.Slots.Laws.{acquire_cases, resume_keeps}

pub begin_rejected :
    (now : ℕ) (s : Slots) (v : Verdict) (live : ℕ)
    → (begin now s).1 ≡ decided v
    → v ≡ rejected live
    → (begin now s).0.pending ≡ s.pending
unfolding begin
begin_rejected now s v live e h = ground arith

admit_rejected :
    (s : Slots) (live : ℕ) → (admit s).1 ≡ rejected live → (admit s).0.pending ≡ s.pending
unfolding admit
admit_rejected s live h = ground arith

pub resume_rejected :
    (later : ℕ) (a : Answer) (s : Slots) (live : ℕ)
    → (resume later a s).1 ≡ rejected live
    → (resume later a s).0.pending ≡ (resync later a s).pending
unfolding resume
resume_rejected later a s live h = admit_rejected (resync later a s) live h

pub acquire_rejected :
    (now later : ℕ) (a : Answer) (s : Slots) (live : ℕ)
    → (acquire now later a s).1 ≡ rejected live
    → (acquire now later a s).0.pending ≡ s.pending
acquire_rejected now later a s live =
    acquire_cases (λ r. r.1 ≡ rejected live → r.0.pending ≡ s.pending) now later a s
      (λ v e h. begin_rejected now s v live e h)
      (λ e h.
        let (_, p) = resume_keeps now later a s e in
        resume_rejected later a (begin now s).0 live h ∙ p)

pub begin-limit : (now : ℕ) (s : Slots) → (begin now s).0.limit ≡ s.limit
unfolding begin
begin-limit now s = ground arith

admit-limit : (s : Slots) → (admit s).0.limit ≡ s.limit
unfolding admit
admit-limit s = ground arith

pub resume-limit : (now : ℕ) (a : Answer) (s : Slots) → (resume now a s).0.limit ≡ s.limit
unfolding resume
resume-limit now a s = admit-limit (resync now a s) ∙ (resync_keeps now a s).0

pub acquire-limit :
    (now later : ℕ) (a : Answer) (s : Slots) → (acquire now later a s).0.limit ≡ s.limit
acquire-limit now later a s =
    acquire_cases (λ r. r.0.limit ≡ s.limit) now later a s (λ v _. begin-limit now s)
      (λ _. resume-limit later a (begin now s).0 ∙ begin-limit now s)
