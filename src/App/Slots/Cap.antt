-- ===== src/App/Slots/Cap.antt =====
-- The cap of `SessionSlots` (src/llm_sandbox/app.py) under every interleaving of its callers.
use llm_sandbox.Prelude.{
  length-append, ◌∙◌, ◌++◌, ap, ◌*◌, ℕ, suc, ◌+◌, ◌≤◌, ◌≡◌, refl, arith, List, ◌∷◌, Text, length,
}
use llm_sandbox.Prelude.Int.{ℤ, pos, pos_part, max_ℤ}
use llm_sandbox.App.Slots.{
  ticks_per_second, Slots, Answer, failed, unknown, listed, count, init, reap, admit, begin, resync,
  resume, commit, rollback, release,
}
use llm_sandbox.App.Slots.Dict.{
  pop_all, expired, stale, length-pop-le, length-pop_all-le, length-put-le,
}
use llm_sandbox.App.Slots.Interleaving.{
  cancel, free_slot, finish_create, here, next, abandon, fail, start, answer, list_backend, enter,
  finish, next, wait, System, boot, settle, entered, Step, Reach,
}

-- Counted sessions stay within the limit, and a pending slot stands for one create in flight.
pub record IsWithin (cap : ℕ) (s : System) : Type 0 where
  pub limited : s.slots.limit ≡ pos (suc cap)
  pub bounded : count s.slots ≤ suc cap
  pub matched : s.slots.pending ≡ s.creating + length s.started

-- `_live` and `_resync` only shrink the dictionary.
reap-le : (now : ℕ) (s : Slots) → count (reap now s) ≤ count s
unfolding reap
reap-le now s = omega (arith, length-pop_all-le (expired now s.deadlines) s.deadlines)

resync-le : (now : ℕ) (a : Answer) (s : Slots) → count (resync now a s) ≤ count s
unfolding resync
resync-le now failed s = reap-le now s
resync-le now unknown s = reap-le now s
resync-le now (listed actual) s = omega (
  arith,
  reap-le now (record s { deadlines = pop_all (stale actual s.deadlines) s.deadlines }),
  length-pop_all-le (stale actual s.deadlines) s.deadlines,
)

reap_keeps :
    (now : ℕ) (s : Slots) → ((reap now s).limit ≡ s.limit) × ((reap now s).pending ≡ s.pending)
unfolding reap
reap_keeps now s = (refl, refl)

pub resync_keeps :
    (now : ℕ) (a : Answer) (s : Slots)
    → ((resync now a s).limit ≡ s.limit) × ((resync now a s).pending ≡ s.pending)
unfolding resync
resync_keeps now failed s = (refl, refl)
resync_keeps now unknown s = (refl, refl)
resync_keeps now (listed actual) s = (refl, refl)

-- One of the started creates ends.
started-length :
    (before : List Text) (k : Text) (later started : List Text)
    → started ≡ before ++ k ∷ later
    → length started ≡ length (before ++ later) + 1
started-length before k later started e =
    ap {B = ℕ} length e
    ∙ length-append before (k ∷ later)
    ∙ ground (arith, length-append before later)

module _ (cap : ℕ) where
  admit-IsWithin :
      (s : System) (slots : Slots)
      → IsWithin cap s
      → slots.limit ≡ s.slots.limit
      → slots.pending ≡ s.slots.pending
      → count slots ≤ count s.slots
      → IsWithin cap (settle s (admit slots).0 (admit slots).1)
  unfolding admit
  admit-IsWithin s slots v l p h = ground arith

  enter-IsWithin :
      (s : System)
      → IsWithin cap s
      → IsWithin cap (entered s (begin s.now s.slots).0 (begin s.now s.slots).1)
  unfolding begin
  enter-IsWithin s v =
      ground (arith, length-pop_all-le (expired s.now s.slots.deadlines) s.slots.deadlines)

  answer-IsWithin :
      (s : System) (a : Answer)
      → IsWithin cap s
      → IsWithin cap (settle s (resume s.now a s.slots).0 (resume s.now a s.slots).1)
  unfolding resume
  answer-IsWithin s a v =
      admit-IsWithin s (resync s.now a s.slots) v (resync_keeps s.now a s.slots).0
        (resync_keeps s.now a s.slots).1 (resync-le s.now a s.slots)

  commit-IsWithin :
      (s : System) (before : List Text) (k : Text) (later : List Text) (timeout : ℤ)
      → IsWithin cap s
      → s.started ≡ before ++ k ∷ later
      → IsWithin cap
          (record s { slots = commit s.now k timeout s.slots; started = before ++ later })
  unfolding commit
  commit-IsWithin s before k later timeout v e = ground (
    arith,
    started-length before k later s.started e,
    length-put-le k (s.now + pos_part (max_ℤ (pos 0) timeout) * ticks_per_second) s.slots.deadlines,
  )

  Step-IsWithin : {s t : System} → Step s t → IsWithin cap s → IsWithin cap t
  unfolding rollback release
  Step-IsWithin (wait n) v = ground arith
  Step-IsWithin (finish k) v = ground arith
  Step-IsWithin {s} (enter e) v = enter-IsWithin s v
  Step-IsWithin (list_backend e) v = ground arith
  Step-IsWithin {s} (answer snapshot a e c) v = answer-IsWithin s a v
  Step-IsWithin (start k n e) v = ground arith
  Step-IsWithin (fail n e) v = ground arith
  Step-IsWithin (cancel snapshot e) v = ground arith
  Step-IsWithin {s} (abandon before k later e) v =
      ground (arith, started-length before k later s.started e)
  Step-IsWithin {s} (finish_create before k later timeout e) v =
      commit-IsWithin s before k later timeout v e
  Step-IsWithin {s} (free_slot k) v = ground (arith, length-pop-le k s.slots.deadlines)

  reach-IsWithin : {s t : System} → IsWithin cap s → Reach s t → IsWithin cap t
  reach-IsWithin v here = v
  reach-IsWithin v (next r st) = Step-IsWithin st (reach-IsWithin v r)

-- From the start of the service on, whatever the interleaving of creates, recounts, deletes and
-- expiries, the slots counted (deadlines and pending creates) never exceed a positive limit, and
-- the pending count is exactly the number of creates in flight.
pub reach-boot-IsWithin : (cap : ℕ) {t : System} → Reach (boot (pos (suc cap))) t → IsWithin cap t
unfolding init
reach-boot-IsWithin cap r =
    reach-IsWithin cap (record { limited = refl; bounded = omega arith; matched = refl }) r
