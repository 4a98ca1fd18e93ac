-- ===== src/App/Handlers/Tests.antt =====
-- The handlers at concrete requests, over a provider that answers at once.
use llm_sandbox.Prelude.{◌+◌, ◌*◌, ◌≡◌, refl, arith, codes, some, text_eq}
use llm_sandbox.Base.Errors.{raised, sandbox_error}
use llm_sandbox.App.Slots.{Slots, unknown, init, ticks_per_second}
use llm_sandbox.App.Slots.Dict.{lookup, drop_if}
use llm_sandbox.App.Handlers.{Provider, Moment, create_session, destroy_session}
use llm_sandbox.App.Handlers.Create.{
  Asked, create_session-pending, create_session-Asked, create_session_counted,
  destroy_session_frees,
}
use llm_sandbox.App.Handlers.Fixtures.{floats, settings, instant, dropped, request, at, fresh}

create_session-pending_example :
    (create_session floats (λ s. s) settings dropped at request (fresh, 0)).1.0.pending ≡ 1
create_session-pending_example =
    create_session-pending floats (λ s. s) settings dropped at request fresh 0

create_session-Asked_example :
    Asked floats
      (λ s. s)
      settings
      instant
      at
      request
      fresh
      0
      (create_session floats (λ s. s) settings instant at request (fresh, 0))
create_session-Asked_example =
    create_session-Asked floats (λ s. s) settings instant at request fresh 0 (omega arith) refl

create_session_counted_example :
    lookup
      (codes "s1")
      (create_session floats (λ s. s) settings instant at request (fresh, 0)).1.0.deadlines
    ≡ some (3 + 3600 * ticks_per_second)
unfolding create_session llm_sandbox.App.Auth.resolve_image llm_sandbox.App.Handlers.reserve
    llm_sandbox.App.Slots.acquire llm_sandbox.App.Slots.begin llm_sandbox.App.Slots.Dict.pop_all
    llm_sandbox.App.Slots.Dict.expired llm_sandbox.App.Handlers.create_or_rollback
create_session_counted_example =
    create_session_counted floats (λ s. s) settings instant at request 1 fresh 0
      (record { session_id = codes "s1"; provider = codes "instant" }) refl refl

freed_slot_test :
    let r = destroy_session floats (λ s. s) settings instant (codes "s1") (fresh, 0) in
    (lookup (codes "s1") r.1.0.deadlines
      ≡ drop_if (text_eq (codes "s1") (codes "s1")) (lookup (codes "s1") fresh.deadlines))
    × (r.0 ≡ raised (sandbox_error (codes "gone")))
    × (r.1.1 ≡ 0)
freed_slot_test =
    destroy_session_frees floats (λ s. s) settings instant (codes "s1") (codes "s1") fresh 0
