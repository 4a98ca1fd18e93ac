-- ===== src/App/Slots/Laws.antt =====
-- What `acquire`, `commit`, `rollback` and `release` of `SessionSlots` do to the sessions counted
-- (src/llm_sandbox/app.py).
use llm_sandbox.Prelude.{
  ◌*◌, ◌∙◌, inr, inl, ℕ, suc, ◌+◌, ◌≤◌, ◌<◌, ◌≡◌, refl, arith, ◌⊎◌, some, Text, true, false,
  text_eq, elem,
}
use llm_sandbox.Prelude.Int.{ℤ, pos}
use llm_sandbox.App.Slots.{
  ticks_per_second, max_ℤ, pos_part, Slots, Verdict, admitted, rejected, Begun, decided, recounting,
  Answer, failed, unknown, listed, count, reap, admit, begin, resync, resume, acquire, commit,
  rollback, release, is_unlimited,
}
use llm_sandbox.App.Slots.Cap.{resync_keeps}
use llm_sandbox.App.Slots.Dict.{
  lookup, HasUniqueKeys, lookup-reap, lookup-discard, lookup-put, lookup-pop, pop_all-HasUniqueKeys,
  drop_if, put, pop_all, expired, stale,
}

-- The recount says nothing against a session: it was not made, it failed, or it lists it.
abbrev pub Spares : Text → Answer → Type 0
Spares k failed = Unit {0}
Spares k unknown = Unit {0}
Spares k (listed actual) = elem k actual ≡ true

lookup-resync :
    (k : Text) (now : ℕ) (a : Answer) (s : Slots)
    → HasUniqueKeys s.deadlines
    → Spares k a
    → lookup k (resync now a s).deadlines ≡ lookup k (reap now s).deadlines
unfolding resync
lookup-resync k now failed s u h = refl
lookup-resync k now unknown s u h = refl
lookup-resync k now (listed actual) s u h = ground (
  arith,
  lookup-reap k now (pop_all (stale actual s.deadlines) s.deadlines) (pop_all-HasUniqueKeys _ _ u),
  lookup-reap k now s.deadlines u,
  lookup-discard k actual s.deadlines,
)

lookup-begin :
    (k : Text) (now d : ℕ) (s : Slots)
    → HasUniqueKeys s.deadlines
    → lookup k s.deadlines ≡ some d
    → now < d
    → lookup k (begin now s).0.deadlines ≡ some d
unfolding begin
lookup-begin k now d s u e h = ground (arith, lookup-reap k now s.deadlines u)

begin-HasUniqueKeys :
    (now : ℕ) (s : Slots) → HasUniqueKeys s.deadlines → HasUniqueKeys (begin now s).0.deadlines
unfolding begin
begin-HasUniqueKeys now s u =
    ground (arith, pop_all-HasUniqueKeys (expired now s.deadlines) s.deadlines u)

pub admit-deadlines : (s : Slots) → (admit s).0.deadlines ≡ s.deadlines
unfolding admit
admit-deadlines s = ground arith

lookup-resume :
    (k : Text) (now d : ℕ) (a : Answer) (s : Slots)
    → HasUniqueKeys s.deadlines
    → lookup k s.deadlines ≡ some d
    → now < d
    → Spares k a
    → lookup k (resume now a s).0.deadlines ≡ some d
unfolding resume reap
lookup-resume k now d a s u e h sp = ground (
  arith,
  admit-deadlines (resync now a s),
  lookup-resync k now a s u sp,
  lookup-reap k now s.deadlines u,
)

Begun-cases : (b : Begun) → ((v : Verdict) × (b ≡ decided v)) ⊎ (b ≡ recounting)
Begun-cases (decided v) = inl (v, refl)
Begun-cases recounting = inr refl

-- `acquire` ends at its first check, or after the recount.
pub acquire_cases {ℓ} :
    (P : Slots × Verdict → Type ℓ) (now later : ℕ) (a : Answer) (s : Slots)
    → ((v : Verdict) → (begin now s).1 ≡ decided v → P ((begin now s).0, v))
    → ((begin now s).1 ≡ recounting → P (resume later a (begin now s).0))
    → P (acquire now later a s)
unfolding acquire
acquire_cases P now later a s first second = elim (Begun-cases (begin now s).1) [
  | inl (v, e) ↦ rw (e, acquire) (first v e)
  | inr e ↦ rw (e, acquire) (second e)
]

-- An `acquire`, admitted or rejected, with or without a recount, never forgets a session whose
-- deadline lies ahead at both clock readings, unless a successful recount does not list it.
pub acquire_keeps_live :
    (k : Text) (now later d : ℕ) (a : Answer) (s : Slots)
    → HasUniqueKeys s.deadlines
    → lookup k s.deadlines ≡ some d
    → now < d
    → later < d
    → Spares k a
    → lookup k (acquire now later a s).0.deadlines ≡ some d
acquire_keeps_live k now later d a s u e h h' sp =
    acquire_cases (λ r. lookup k r.0.deadlines ≡ some d) now later a s
      (λ v _. lookup-begin k now d s u e h)
      (λ _.
        lookup-resume k later d a _ (begin-HasUniqueKeys now s u) (lookup-begin k now d s u e h) h'
          sp)

-- What the caller of `acquire` is told, against the state that it leaves.
abbrev pub Outcome : ℕ → Slots → Slots × Verdict → Type 0
Outcome cap s (s', admitted) = (s'.pending ≡ s.pending + 1) × (count s' ≤ suc cap)
Outcome cap s (s', rejected live) = (s'.pending ≡ s.pending) × (live ≡ count s') × (suc cap ≤ live)

module _ (cap : ℕ) (s : Slots) (limited : s.limit ≡ pos (suc cap)) where
  admit-Outcome :
      (s' : Slots) → s'.limit ≡ s.limit → s'.pending ≡ s.pending → Outcome cap s (admit s')
  unfolding admit
  admit-Outcome s' l p = ground arith

  begin-Outcome :
      (now : ℕ) (v : Verdict) → (begin now s).1 ≡ decided v → Outcome cap s ((begin now s).0, v)
  unfolding begin
  begin-Outcome now v e = ground arith

pub begin_keeps :
    (now : ℕ) (s : Slots)
    → (begin now s).1 ≡ recounting
    → ((begin now s).0.limit ≡ s.limit)
      × ((begin now s).0.pending ≡ s.pending)
      × (is_unlimited s ≡ false)
unfolding begin
begin_keeps now s e = ground arith

pub resume_keeps :
    (now later : ℕ) (a : Answer) (s : Slots)
    → (begin now s).1 ≡ recounting
    → ((resync later a (begin now s).0).limit ≡ s.limit)
      × ((resync later a (begin now s).0).pending ≡ s.pending)
resume_keeps now later a s e =
    let (l, p) = resync_keeps later a (begin now s).0 in
    let (l', p', _) = begin_keeps now s e in (l ∙ l', p ∙ p')

-- Under a positive limit, `acquire` admits the caller exactly by reserving one pending slot within
-- the limit, and rejects it, with nothing reserved, only if the sessions still counted after
-- reaping and any recount fill the limit; the count that it reports is the one it leaves.
pub acquire-Outcome :
    (cap now later : ℕ) (a : Answer) (s : Slots)
    → s.limit ≡ pos (suc cap)
    → Outcome cap s (acquire now later a s)
acquire-Outcome cap now later a s limited =
    acquire_cases (Outcome cap s) now later a s (begin-Outcome cap s limited now) (λ e.
      let (l, p) = resume_keeps now later a s e in
      unfold resume in admit-Outcome cap s limited (resync later a (begin now s).0) l p)

pub begin-rollback :
    (now : ℕ) (s : Slots) (v : Verdict)
    → (begin now s).1 ≡ decided v
    → v ≡ admitted
    → (rollback (begin now s).0).pending ≡ s.pending
unfolding begin rollback
begin-rollback now s v e h = ground arith

admit-rollback :
    (s : Slots)
    → (admit s).1 ≡ admitted
    → is_unlimited s ≡ false
    → (rollback (admit s).0).pending ≡ s.pending
unfolding admit rollback
admit-rollback s e h = ground arith

pub resume-rollback :
    (now later : ℕ) (a : Answer) (s : Slots)
    → (begin now s).1 ≡ recounting
    → (resume later a (begin now s).0).1 ≡ admitted
    → (rollback (resume later a (begin now s).0).0).pending ≡ s.pending
unfolding resume
resume-rollback now later a s e h =
    let (l, p) = resume_keeps now later a s e in
    let (_, _, capped) = begin_keeps now s e in
    admit-rollback (resync later a (begin now s).0) h (rw l capped) ∙ p

-- An `acquire` that admits, followed by the `rollback` of a failed create, leaves no slot reserved.
pub rollback-acquire :
    (now later : ℕ) (a : Answer) (s : Slots)
    → (acquire now later a s).1 ≡ admitted
    → (rollback (acquire now later a s).0).pending ≡ s.pending
rollback-acquire now later a s =
    acquire_cases (λ r. r.1 ≡ admitted → (rollback r.0).pending ≡ s.pending) now later a s
      (begin-rollback now s) (resume-rollback now later a s)

-- A committed session is counted under its deadline, and its release forgets it and no other.
pub release-commit :
    (now : ℕ) (k j : Text) (timeout : ℤ) (s : Slots)
    → lookup j (release k (commit now k timeout s)).deadlines
      ≡ drop_if (text_eq k j) (lookup j s.deadlines)
unfolding release commit
release-commit now k j timeout s = ground (
  arith,
  lookup-pop k j s.deadlines,
  lookup-pop k j (put k due s.deadlines),
  lookup-put k j due s.deadlines,
)
  where
    due : ℕ
    due = now + pos_part (max_ℤ (pos 0) timeout) * ticks_per_second
