-- ===== src/App/Slots/Interleaving.antt =====
-- The handlers that share one `SessionSlots` object (`create_session`, `destroy_session` of
-- src/llm_sandbox/app.py) as interleaved steps: every step is the code between two `await`s. The
-- lock of `acquire` is held across its recount; `commit`, `rollback` and `release` do not take it.
use llm_sandbox.Prelude.{
  ℕ, suc, ◌+◌, ◌≡◌, List, [], ◌∷◌, ◌++◌, Option, none, some, Text, text_eq, true, not, keep,
}
use llm_sandbox.Prelude.Int.{ℤ}
use llm_sandbox.App.Slots.{
  Slots, Verdict, admitted, rejected, Begun, decided, recounting, Answer, failed, unknown, listed,
  init, begin, resume, commit, rollback, release,
}

-- The lock of `acquire`: free, or held by a caller that awaits its recount. The backend takes the
-- listing at some moment of the wait.
pub data Lock : Type 0 where
  free : Lock
  asking : Option (List Text) → Lock

pub record System : Type 0 where
  pub slots : Slots
  pub now : ℕ
  pub lock : Lock
  -- `create_session` calls past `acquire` with no session on the backend yet
  pub creating : ℕ
  -- those whose session exists on the backend, before `commit`
  pub started : List Text
  -- the sessions of this replica that exist on the backend
  pub backend : List Text

abbrev pub without : Text → List Text → List Text
without k xs = keep (λ x. not (text_eq x k)) xs

abbrev pub boot : ℤ → System
boot limit = record {
  slots = init limit true;
  now = 0;
  lock = free;
  creating = 0;
  started = [];
  backend = [];
}

-- A decision of `acquire`: an admitted caller goes on to create, a rejected one leaves with 429.
abbrev pub settle : System → Slots → Verdict → System
settle s slots admitted = record s { slots = slots; lock = free; creating = s.creating + 1 }
settle s slots (rejected live) = record s { slots = slots; lock = free }

abbrev pub entered : System → Slots → Begun → System
entered s slots (decided v) = settle s slots v
entered s slots recounting = record s { slots = slots; lock = asking none }

-- The answers that a recount can have, given what the backend listed.
abbrev pub CanAnswer : Option (List Text) → Answer → Type 0
CanAnswer snapshot failed = Unit {0}
CanAnswer snapshot unknown = Unit {0}
CanAnswer snapshot (listed actual) = snapshot ≡ some actual

pub data Step (s : System) : System → Type 0 where
  wait : (n : ℕ) → Step s (record s { now = s.now + n })
  -- a session ends by itself, or through another replica
  finish : (k : Text) → Step s (record s { backend = without k s.backend })
  enter : s.lock ≡ free → Step s (entered s (begin s.now s.slots).0 (begin s.now s.slots).1)
  list_backend : s.lock ≡ asking none → Step s (record s { lock = asking (some s.backend) })
  answer :
      (snapshot : Option (List Text)) (a : Answer)
      → s.lock ≡ asking snapshot
      → CanAnswer snapshot a
      → Step s (settle s (resume s.now a s.slots).0 (resume s.now a s.slots).1)
  -- a client that drops during the recount
  cancel :
      (snapshot : Option (List Text)) → s.lock ≡ asking snapshot → Step s (record s { lock = free })
  start :
      (k : Text) (n : ℕ)
      → s.creating ≡ suc n
      → Step s (record s { creating = n; started = k ∷ s.started; backend = k ∷ s.backend })
  fail : (n : ℕ) → s.creating ≡ suc n → Step s (record s { slots = rollback s.slots; creating = n })
  -- `provider.create` raises after the session came up: a client that drops during the wait
  abandon :
      (before : List Text) (k : Text) (later : List Text)
      → s.started ≡ before ++ k ∷ later
      → Step s (record s { slots = rollback s.slots; started = before ++ later })
  finish_create :
      (before : List Text) (k : Text) (later : List Text) (timeout : ℤ)
      → s.started ≡ before ++ k ∷ later
      → Step s (record s { slots = commit s.now k timeout s.slots; started = before ++ later })
  -- `destroy_session`: the slot first, then the session
  free_slot : (k : Text) → Step s (record s { slots = release k s.slots })

pub data Reach (s : System) : System → Type 0 where
  here : Reach s s
  next : {t u : System} → Reach s t → Step t u → Reach s u
