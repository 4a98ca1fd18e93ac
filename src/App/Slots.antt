-- ===== src/App/Slots.antt =====
-- `SessionSlots` of src/llm_sandbox/app.py: the per-replica cap on live sessions, tracked as a
-- dictionary from session id to deadline. `time.monotonic()` is a number of ticks, an argument of
-- each call. `acquire` has an `await` inside, for the recount: `begin` is what runs before it and
-- `resume` what runs after it, and `acquire` is the two with nothing in between.
pub mod Dict
pub mod Interleaving
pub mod Cap
pub mod Laws
pub mod Recount
pub mod Progress
pub mod Recounting
pub mod Rejected
mod Tests
use llm_sandbox.Prelude.{
  ℕ, ◌+◌, ◌-◌, ◌*◌, Text, List, [], Bool, true, false, ◌&&◌, if◌then◌else◌, length,
}
use llm_sandbox.Prelude.Int.{ℤ, pos, negsuc, pos_part, leb_ℤ, max_ℤ}
use Dict.{Deadlines, pop, put, pop_all, expired, stale}

-- The resolution of the clock: nanoseconds.
abbrev pub ticks_per_second : ℕ
ticks_per_second = 1000000000

pub record Slots : Type 0 where
  pub limit : ℤ
  pub deadlines : Deadlines
  pub pending : ℕ
  pub has_recount : Bool

-- `__init__`
unfoldable pub init : ℤ → Bool → Slots
init limit recount = record { limit = limit; deadlines = []; pending = 0; has_recount = recount }

-- `_limit <= 0`: no cap.
abbrev pub is_unlimited : Slots → Bool
is_unlimited s = leb_ℤ s.limit (pos 0)

-- `live >= self._limit`
abbrev pub is_full : Slots → ℕ → Bool
is_full s live = leb_ℤ s.limit (pos live)

-- `_live`: the state after it, and what it returns.
unfoldable pub reap : ℕ → Slots → Slots
reap now s = record s { deadlines = pop_all (expired now s.deadlines) s.deadlines }

abbrev pub count : Slots → ℕ
count s = length s.deadlines + s.pending

pub data Verdict : Type 0 where
  admitted : Verdict
  -- HTTP 429, with the live sessions counted
  rejected : ℕ → Verdict

pub data Begun : Type 0 where
  decided : Verdict → Begun
  recounting : Begun

-- What the awaited recount gave: an exception or a timeout, `None`, or the ids on the backend.
pub data Answer : Type 0 where
  failed unknown : Answer
  listed : List Text → Answer

-- The end of `acquire`, from the second comparison on.
unfoldable pub admit : Slots → Slots × Verdict
admit s =
    if is_full s (count s)
    then (s, rejected (count s))
    else (record s { pending = s.pending + 1 }, admitted)

-- `acquire`, up to the `await` in `_resync`.
unfoldable pub begin : ℕ → Slots → Slots × Begun
unfolding reap admit
begin now s =
    if is_unlimited s
    then (s, decided admitted)
    else (let s' = reap now s in
        if is_full s' (count s') && s'.has_recount
        then (s', recounting)
        else ((admit s').0, decided (admit s').1))

-- `_resync`, from the `await` on: the clock is read again after it.
unfoldable pub resync : ℕ → Answer → Slots → Slots
unfolding reap
resync now failed s = reap now s
resync now unknown s = reap now s
resync now (listed actual) s =
    reap now (record s { deadlines = pop_all (stale actual s.deadlines) s.deadlines })

unfoldable pub resume : ℕ → Answer → Slots → Slots × Verdict
unfolding resync admit
resume now answer s = admit (resync now answer s)

-- The whole of `acquire`, when nothing else runs during the recount.
unfoldable pub acquire : ℕ → ℕ → Answer → Slots → Slots × Verdict
acquire now later answer s = elim (begin now s).1 [
  | decided v ↦ ((begin now s).0, v)
  | recounting ↦ resume later answer (begin now s).0
]

-- `commit(sid, timeout_seconds)`; `max(0, pending - 1)` is subtraction that stops at 0.
unfoldable pub commit : ℕ → Text → ℤ → Slots → Slots
commit now sid timeout s = if is_unlimited s then s else record s {
  pending = s.pending - 1;
  deadlines = put sid (now + pos_part (max_ℤ (pos 0) timeout) * ticks_per_second) s.deadlines;
}

unfoldable pub rollback : Slots → Slots
rollback s = if is_unlimited s then s else record s { pending = s.pending - 1 }

unfoldable pub release : Text → Slots → Slots
release sid s = record s { deadlines = pop sid s.deadlines }
