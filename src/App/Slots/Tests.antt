-- ===== src/App/Slots/Tests.antt =====
-- Runs of `SessionSlots`, and its theorems at concrete inputs.
use llm_sandbox.Prelude.{
  text_eq, ◌<◌, ◌≡◌, refl, arith, [], ◌∷◌, none, some, Text, codes, length, true,
}
use llm_sandbox.Prelude.Int.{pos}
use llm_sandbox.App.Slots.Cap.{IsWithin, reach-boot-IsWithin}
use llm_sandbox.App.Slots.Laws.{Outcome, acquire_keeps_live, acquire-Outcome, release-commit}
use llm_sandbox.App.Slots.Progress.{Drains, acquire-admits, Reach-admits}
use llm_sandbox.App.Slots.Recount.{resume-commit_forgets}
use llm_sandbox.App.Slots.{
  Slots, admitted, decided, rejected, unknown, listed, init, begin, resync, resume, acquire, commit,
  release,
}
use llm_sandbox.App.Slots.Dict.{drop_if, lookup, pop, put, pop_all, expired, stale}
use llm_sandbox.App.Slots.Interleaving.{
  System, boot, free, Reach, here, next, enter, list_backend, answer, start, finish_create,
}

abbrev a_id : Text
a_id = codes "a"

abbrev b_id : Text
b_id = codes "b"

-- A recount that begins before a session commits and is read after it: two sessions under a cap of
-- one.
race : (t : System) × Reach (boot (pos 1)) t × (1 < length t.backend)
unfolding init begin resume commit resync stale pop_all put pop expired
race = (
  _,
  next
      (next
        (next
          (next (next (next (next here (enter refl)) (enter refl)) (list_backend refl))
            (start a_id 0 refl))
          (finish_create [] a_id [] (pos 60) refl))
        (answer (some []) (listed []) refl refl))
      (start b_id 0 refl),
  omega arith,
)

abbrev two : Slots
two = record {
  limit = pos 2;
  deadlines = (a_id, 90) ∷ (b_id, 40) ∷ [];
  pending = 0;
  has_recount = true;
}

reach-boot-IsWithin_example : IsWithin 0 race.0
reach-boot-IsWithin_example = reach-boot-IsWithin 0 race.1

acquire_keeps_live_example :
    lookup a_id (acquire 50 60 (listed (a_id ∷ [])) two).0.deadlines ≡ some 90
unfolding lookup
acquire_keeps_live_example =
    acquire_keeps_live a_id 50 60 90 (listed (a_id ∷ [])) two (refl, (refl, tt)) refl (omega arith)
      (omega arith) refl

acquire-Outcome_example : Outcome 1 two (acquire 10 20 unknown two)
acquire-Outcome_example = acquire-Outcome 1 10 20 unknown two refl

rejected_test : (acquire 10 20 unknown two).1 ≡ rejected 2
unfolding acquire begin resume resync expired pop_all pop
rejected_test = refl

committed_release_test :
    lookup b_id (release a_id (commit 10 a_id (pos 5) two)).deadlines
    ≡ drop_if (text_eq a_id b_id) (lookup b_id two.deadlines)
committed_release_test = release-commit 10 a_id b_id (pos 5) two

resume-commit_forgets_example :
    lookup
      (codes "c")
      (resume 30 (listed (a_id ∷ [])) (commit 20 (codes "c") (pos 60) two)).0.deadlines
    ≡ none
unfolding lookup
resume-commit_forgets_example =
    resume-commit_forgets (codes "c") 20 30 (pos 60) (a_id ∷ []) two (refl, (refl, tt)) refl

-- Two sessions whose deadlines have passed.
overdue_test : (acquire 90 95 unknown two).1 ≡ admitted
overdue_test = acquire-admits 1 90 95 unknown two refl refl (omega arith, (omega arith, tt))

Reach-admits_example :
    (v : System) × Drains race.0 v
    × (v.lock ≡ free)
    × (v.creating ≡ 0)
    × (v.started ≡ [])
    × ((begin v.now v.slots).1 ≡ decided admitted)
Reach-admits_example = Reach-admits 0 race.1
