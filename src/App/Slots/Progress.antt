-- ===== src/App/Slots/Progress.antt =====
-- The slots of src/llm_sandbox/app.py never get stuck: what a caller can still hope for.
use llm_sandbox.Prelude.{
  ℕ, zero, suc, ◌+◌, ◌≤◌, ◌≡◌, refl, ap, ◌∙◌, arith, List, [], ◌∷◌, none, Text, All, text_eq_iff,
  text_eq_refl, elem, length,
}
use llm_sandbox.Prelude.Int.{pos}
use llm_sandbox.App.Slots.{
  Slots, Verdict, admitted, decided, rejected, Answer, failed, reap, admit, begin, acquire,
}
use llm_sandbox.App.Slots.Dict.{Deadlines, lookup, expired, pop_all, drop_if, lookup-pop_all}
use llm_sandbox.App.Slots.Interleaving.{
  System, Step, boot, Lock, free, asking, settle, wait, answer, fail, abandon, Reach, next,
}
use llm_sandbox.App.Slots.Cap.{IsWithin, reach-boot-IsWithin}

abbrev pub AllOver : ℕ → Deadlines → Type 0
AllOver now = All (λ kd. kd.1 ≤ now)

nil-lookup : (ds : Deadlines) → ((j : Text) → lookup j ds ≡ none) → ds ≡ []
unfolding lookup
nil-lookup [] h = refl
nil-lookup ((k, d) ∷ ds) h = ground (arith, h k, text_eq_refl k)

over-dropped :
    (j : Text) (now : ℕ) (ds : Deadlines)
    → AllOver now ds
    → drop_if (elem j (expired now ds)) (lookup j ds) ≡ none
unfolding lookup expired
over-dropped j now [] h = refl
over-dropped j now ((k, d) ∷ ds) (p, h) =
    ground (arith, text_eq_iff j k, text_eq_iff k j, over-dropped j now ds h)

-- Reaping leaves nothing of deadlines that have passed.
pop_all-expired : (now : ℕ) (ds : Deadlines) → AllOver now ds → pop_all (expired now ds) ds ≡ []
pop_all-expired now ds h =
    nil-lookup (pop_all (expired now ds) ds)
      (λ j. lookup-pop_all j (expired now ds) ds ∙ over-dropped j now ds h)

begin-admits :
    (cap now : ℕ) (s : Slots)
    → s.limit ≡ pos (suc cap)
    → s.pending ≡ 0
    → AllOver now s.deadlines
    → ((begin now s).1 ≡ decided admitted)
      × ((begin now s).0 ≡ record s { deadlines = []; pending = 1 })
unfolding begin reap admit
begin-admits cap now s l p h = ground (arith, pop_all-expired now s.deadlines h)

-- With no create in flight and every deadline passed, `acquire` admits its caller, and with no
-- recount.
pub acquire-admits :
    (cap now later : ℕ) (a : Answer) (s : Slots)
    → s.limit ≡ pos (suc cap)
    → s.pending ≡ 0
    → AllOver now s.deadlines
    → (acquire now later a s).1 ≡ admitted
unfolding acquire
acquire-admits cap now later a s l p h = rw ((begin-admits cap now s l p h).0, acquire)

latest : Deadlines → ℕ
latest [] = 0
latest ((k, d) ∷ ds) = d + latest ds

latest-AllOver : (n now : ℕ) (ds : Deadlines) → latest ds ≤ n → AllOver (now + n) ds
unfolding latest
latest-AllOver n now [] h = tt
latest-AllOver n now ((k, d) ∷ ds) h = (omega arith, latest-AllOver n now ds (omega arith))

-- The steps in which the service gives up on what is in flight: time passes, a recount fails, a
-- create fails, or its client drops. No caller enters, no create commits, and no session is deleted
-- or ends.
abbrev pub IsQuiet : {s t : System} → Step s t → Type 0
IsQuiet (wait n) = Unit {0}
IsQuiet (answer snapshot failed e c) = Unit {0}
IsQuiet (fail n e) = Unit {0}
IsQuiet (abandon before k later e) = Unit {0}
IsQuiet _ = ⊥

pub data Drains (s : System) : System → Type 0 where
  still : Drains s s
  ending : {t u : System} → Drains s t → (st : Step t u) → IsQuiet st → Drains s u

Drains-Drains : {s t u : System} → Drains s t → Drains t u → Drains s u
Drains-Drains r still = r
Drains-Drains r (ending q st quiet) = ending (Drains-Drains r q) st quiet

Drains-Reach : {s t u : System} → Reach s t → Drains t u → Reach s u
Drains-Reach r still = r
Drains-Reach r (ending q st quiet) = next (Drains-Reach r q) st

-- The callers in flight can all come to an end.
drain_creating :
    (n : ℕ) (s : System)
    → s.creating ≡ n
    → (t : System) × Drains s t × (t.creating ≡ 0) × (t.started ≡ s.started) × (t.lock ≡ s.lock)
drain_creating zero s e = (s, still, e, refl, refl)
drain_creating (suc n) s e =
    let (t, r, c, st, l) = drain_creating n _ refl in
    (t, Drains-Drains (ending still (fail n e) tt) r, c, st, l)

drain_started :
    (ks : List Text) (s : System)
    → s.started ≡ ks
    → (t : System) × Drains s t × (t.creating ≡ s.creating) × (t.started ≡ []) × (t.lock ≡ s.lock)
drain_started [] s e = (s, still, refl, e, refl)
drain_started (k ∷ ks) s e =
    let (t, r, c, st, l) = drain_started ks _ refl in
    (t, Drains-Drains (ending still (abandon [] k ks e) tt) r, c, st, l)

settle-lock : (s : System) (slots : Slots) (v : Verdict) → (settle s slots v).lock ≡ free
settle-lock s slots admitted = refl
settle-lock s slots (rejected live) = refl

unlock : (s : System) (lock : Lock) → s.lock ≡ lock → (t : System) × Drains s t × (t.lock ≡ free)
unlock s free e = (s, still, e)
unlock s (asking snapshot) e = (_, ending still (answer snapshot failed e tt) tt, settle-lock s _ _)

-- With nothing in flight, the next caller after the last deadline is admitted.
admits_next :
    (cap : ℕ) (s : System)
    → IsWithin cap s
    → s.creating ≡ 0
    → s.started ≡ []
    → (begin (s.now + latest s.slots.deadlines) s.slots).1 ≡ decided admitted
admits_next cap s v c st =
    let n = latest s.slots.deadlines in
    (begin-admits cap (s.now + n) s.slots v.limited
      (v.matched ∙ ground (arith, ap {B = ℕ} length st))
      (latest-AllOver n s.now s.slots.deadlines (omega arith))).0

-- From every state that the service can reach under a positive limit, if the recount in flight
-- fails, the creates in flight fail or lose their clients, and enough time passes, then nothing is in
-- flight, the lock is free, and the next caller is admitted at once. No session needs to be deleted
-- or listed for it, no caller entered, and no create committed.
pub Reach-admits :
    (cap : ℕ) {t : System}
    → Reach (boot (pos (suc cap))) t
    → (v : System) × Drains t v
      × (v.lock ≡ free)
      × (v.creating ≡ 0)
      × (v.started ≡ [])
      × ((begin v.now v.slots).1 ≡ decided admitted)
Reach-admits cap {t} r =
    let (a, ra, la) = unlock t t.lock refl in
    let (b, rb, cb, sb, lb) = drain_creating a.creating a refl in
    let (c, rc, kc, sc, lc) = drain_started b.started b refl in
    let back = Drains-Drains ra (Drains-Drains rb rc) in
    let v = reach-boot-IsWithin cap (Drains-Reach r back) in
    (
      record c { now = c.now + latest c.slots.deadlines },
      ending back (wait (latest c.slots.deadlines)) tt,
      lc ∙ lb ∙ la,
      kc ∙ cb,
      sc,
      admits_next cap c v (kc ∙ cb) sc,
    )
