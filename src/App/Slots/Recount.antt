-- ===== src/App/Slots/Recount.antt =====
-- The recount of `SessionSlots._resync` (src/llm_sandbox/app.py) is awaited, and `commit` does not
-- take the lock, so the backend's listing may be older than the dictionary that it is held against.
use llm_sandbox.Prelude.{ℕ, ◌+◌, ◌*◌, ◌≡◌, arith, List, none, Text, elem, false}
use llm_sandbox.Prelude.Int.{ℤ, pos, max_ℤ, pos_part}
use llm_sandbox.App.Slots.{Slots, listed, resync, resume, commit, ticks_per_second}
use llm_sandbox.App.Slots.Dict.{
  HasUniqueKeys, lookup, lookup-reap, lookup-discard, pop_all-HasUniqueKeys, put-HasUniqueKeys,
  pop_all, stale,
}
use llm_sandbox.App.Slots.Laws.{admit-deadlines}

pub commit-HasUniqueKeys :
    (now : ℕ) (k : Text) (timeout : ℤ) (s : Slots)
    → HasUniqueKeys s.deadlines
    → HasUniqueKeys (commit now k timeout s).deadlines
unfolding commit
commit-HasUniqueKeys now k timeout s u = ground (arith, put-HasUniqueKeys k due s.deadlines u)
  where
    due : ℕ
    due = now + pos_part (max_ℤ (pos 0) timeout) * ticks_per_second

-- A successful recount forgets every session that it does not list.
pub resume_forgets :
    (k : Text) (now : ℕ) (actual : List Text) (s : Slots)
    → HasUniqueKeys s.deadlines
    → elem k actual ≡ false
    → lookup k (resume now (listed actual) s).0.deadlines ≡ none
unfolding resume resync
resume_forgets k now actual s u absent = ground (
  arith,
  admit-deadlines (resync now (listed actual) s),
  lookup-discard k actual s.deadlines,
  lookup-reap k now (pop_all (stale actual s.deadlines) s.deadlines) (pop_all-HasUniqueKeys _ _ u),
)

-- A session that comes up after the listing was taken, and commits before `acquire` resumes, is
-- not counted from then on, whatever its deadline.
pub resume-commit_forgets :
    (k : Text) (now later : ℕ) (timeout : ℤ) (actual : List Text) (s : Slots)
    → HasUniqueKeys s.deadlines
    → elem k actual ≡ false
    → lookup k (resume later (listed actual) (commit now k timeout s)).0.deadlines ≡ none
resume-commit_forgets k now later timeout actual s u absent =
    resume_forgets k later actual (commit now k timeout s) (commit-HasUniqueKeys now k timeout s u)
      absent
