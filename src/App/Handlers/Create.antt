-- ===== src/App/Handlers/Create.antt =====
-- What `create_session` and `destroy_session` of src/llm_sandbox/app.py do to the slots and ask of the
-- provider, on every path.
use llm_sandbox.Prelude.{
  ℕ, suc, ◌+◌, ◌*◌, ◌≡◌, ◌≢◌, ◌⊎◌, inl, inr, refl, ap, ◌∙◌, sym, arith, true, Option, some, Text,
  text_eq, text_eq_refl, elem,
}
use mathlib.Core.Path.{subst}
use llm_sandbox.Prelude.Int.{ℤ, pos, min_ℤ, max_ℤ, pos_part, ◌≤ℤ◌}
use llm_sandbox.Base.Errors.{Outcome-cases, Exception, http, Outcome, ok, raised, after}
use llm_sandbox.Base.Limits.{Floats, clamp_resources, clamp_resources_bounds, AtMost}
use llm_sandbox.Config.{Settings}
use llm_sandbox.Models.{CreateSessionRequest, Session}
use llm_sandbox.App.Slots.{
  Slots, Verdict, admitted, rejected, commit, rollback, release, ticks_per_second,
}
use llm_sandbox.App.Slots.Recounting.{
  acquire_with, acquire_with-Balanced, acquire_with-limit, Balanced,
}
use llm_sandbox.App.Slots.Dict.{drop_if, lookup, lookup-put, lookup-pop}
use llm_sandbox.App.Auth.{resolve_image, resolve_image-outcome, image_detail}
use llm_sandbox.App.Handlers.{
  limit_detail, Provider, Moment, reserve, recount, create_or_rollback, create_session,
  destroy_session, reserved, kept,
}

commit-pending :
    (now : ℕ) (sid : Text) (timeout : ℤ) (s : Slots)
    → (commit now sid timeout s).pending ≡ (rollback s).pending
unfolding commit rollback
commit-pending now sid timeout s = ground arith

module _ (f : Floats) {W : Type 0} (repr : Text → Text) (cfg : Settings f.Float)
    (p : Provider f.Float W) where
  kept-pending :
      (m : Moment) (timeout : ℤ) (s : Slots) (r : Outcome Text × W)
      → (kept f repr cfg p m timeout s r).1.0.pending ≡ (rollback s).pending
  kept-pending m timeout s (ok sid, w) = commit-pending m.finished sid timeout s
  kept-pending m timeout s (raised e, w) = refl

  -- The answer for a created session.
  abbrev named : Outcome Text × (Slots × W) → Outcome Session × (Slots × W)
  named (ok sid, st) = (ok (record { session_id = sid; provider = p.name }), st)
  named (raised e, st) = (raised e, st)

  -- The settings that a request gets.
  abbrev pub granted : CreateSessionRequest f.Float → ℤ × f.Float
  granted req = clamp_resources f req.memory_mb req.cpus cfg.max_memory_mb cfg.max_cpus

  abbrev pub lifetime : CreateSessionRequest f.Float → ℤ
  lifetime req = min_ℤ req.timeout_seconds cfg.max_session_seconds

  abbrev pub provided : CreateSessionRequest f.Float → Text → W → Outcome Text × W
  provided req image = p.create image (lifetime req) req.network (granted req).0 (granted req).1

  -- The exception of a caller that `acquire` does not admit: the one that ended the recount, or 429
  -- with the number of sessions counted.
  abbrev pub Refused : Exception → Outcome Verdict × (Slots × W) → Type 0
  Refused e q =
      (q.0 ≡ raised e)
      ⊎ ((live : ℕ) × (q.0 ≡ ok (rejected live)) × (e ≡ http 429 (limit_detail live q.1.0.limit)))

  not_both : (e : Exception) (q : Outcome Verdict × (Slots × W)) → Refused e q → q.0 ≢ ok admitted
  not_both e q (inl h) g = cc
  not_both e q (inr (live, h, _)) g =
      let clash : ok (rejected live) ≡ ok admitted = sym h ∙ g in ground arith

  -- What `acquire` makes of the slots, and of the provider's world when it asks for a recount.
  abbrev pub reservation : Moment → Slots → W → Outcome Verdict × (Slots × W)
  reservation m s w = acquire_with (recount f repr cfg p m) m.asked m.resumed (s, w)

  reserved_cases {ℓ} :
      (P : Outcome Session × (Slots × W) → Type ℓ) (k : Slots × W → Outcome Session × (Slots × W))
      (q : Outcome Verdict × (Slots × W))
      → ((e : Exception) → Refused e q → P (raised e, q.1))
      → (q.0 ≡ ok admitted → P (k q.1))
      → P (after (λ _. k) (reserved f repr cfg p q))
  reserved_cases P k (ok admitted, st) full room = room refl
  reserved_cases P k (ok (rejected live), (s, w)) full room = full _ (inr (live, refl, refl))
  reserved_cases P k (raised x, st) full room = full x (inl refl)

  named-after :
      (r : Outcome Text × (Slots × W))
      → after (λ sid st. (ok (record { session_id = sid; provider = p.name }), st)) r ≡ named r
  named-after (ok sid, st) = refl
  named-after (raised e, st) = refl

  create_session_cases {ℓ} :
      (P : Outcome Session × (Slots × W) → Type ℓ) (m : Moment) (req : CreateSessionRequest f.Float)
      (s : Slots) (w : W)
      → let q = reservation m s w in
        let resolved = resolve_image repr cfg.default_image cfg.allowed_images req.image in
        ((e : Exception) → resolved ≡ raised e → P (raised e, (s, w)))
        → ((image : Text) (e : Exception) → resolved ≡ ok image → Refused e q → P (raised e, q.1))
        → ((image : Text)
            → resolved ≡ ok image
            → q.0 ≡ ok admitted
            → P (named (kept f repr cfg p m (lifetime req) q.1.0 (provided req image q.1.1))))
        → P (create_session f repr cfg p m req (s, w))
  unfolding create_session reserve create_or_rollback
  create_session_cases P m req s w refused full made =
      elim (Outcome-cases (resolve_image repr cfg.default_image cfg.allowed_images req.image)) [
        | inr (e, bad) ↦ rw (bad, after) (refused e bad)
        | inl (image, good) ↦
            rw (good, after)
              (reserved_cases P _ (reservation m s w) (λ e. full image e good)
                (λ room. subst P (sym (named-after _)) (made image good room)))
      ]

  -- The pending creates after an `acquire` that raised, rejected, or admitted.
  not_admitted :
      (m : Moment) (s : Slots) (q : Outcome Verdict × (Slots × W))
      → Balanced (recount f repr cfg p m) s q
      → q.0 ≢ ok admitted
      → q.1.0.pending ≡ s.pending
  not_admitted m s (ok admitted, st) h n = absurd (n refl)
  not_admitted m s (ok (rejected live), st) h n = h
  not_admitted m s (raised e, st) h n = h

  was_admitted :
      (m : Moment) (s : Slots) (q : Outcome Verdict × (Slots × W))
      → Balanced (recount f repr cfg p m) s q
      → q.0 ≡ ok admitted
      → (rollback q.1.0).pending ≡ s.pending
  was_admitted m s (ok admitted, st) h e = h
  was_admitted m s (ok (rejected live), st) h e = ground arith
  was_admitted m s (raised x, st) h e = ground arith

  named-state : (r : Outcome Text × (Slots × W)) → (named r).1 ≡ r.1
  named-state (ok sid, st) = refl
  named-state (raised e, st) = refl

  -- Whatever becomes of a create (refused, over the cap, failed, cancelled or done), it leaves as
  -- many slots pending as it found.
  pub create_session-pending :
      (m : Moment) (req : CreateSessionRequest f.Float) (s : Slots) (w : W)
      → (create_session f repr cfg p m req (s, w)).1.0.pending ≡ s.pending
  create_session-pending m req s w =
      let balanced = acquire_with-Balanced (recount f repr cfg p m) m.asked m.resumed s w in
      let q = reservation m s w in
      create_session_cases (λ r. r.1.0.pending ≡ s.pending) m req s w (λ e _. refl)
        (λ image e _ full. not_admitted m s q balanced (not_both e q full))
        (λ image _ room.
          ap (λ st. st.0.pending)
            (named-state (kept f repr cfg p m (lifetime req) q.1.0 (provided req image q.1.1)))
          ∙ kept-pending m (lifetime req) q.1.0 (provided req image q.1.1)
          ∙ was_admitted m s q balanced room)

  -- What a request can have made the provider do. An image that is not allowed: nothing. Else the
  -- `acquire` comes first, with the recount that it may ask for; a caller that it does not admit gets
  -- an exception, with no other call; for one that it admits, one `create`, of an image that is
  -- allowed, with resources and a lifetime within the configured ceilings.
  abbrev pub Asked :
      Moment → CreateSessionRequest f.Float → Slots → W → Outcome Session × (Slots × W) → Type 0
  Asked m req s w r =
      let q = reservation m s w in
      let resolved = resolve_image repr cfg.default_image cfg.allowed_images req.image in
      ((e : Exception) × (resolved ≡ raised e) × (r ≡ (raised e, (s, w))))
      ⊎ ((image : Text) × (e : Exception) × (resolved ≡ ok image)
          × Refused e q
          × (r ≡ (raised e, q.1)))
      ⊎ ((image : Text) × (resolved ≡ ok image)
          × (q.0 ≡ ok admitted)
          × ((image ≡ cfg.default_image) ⊎ (elem image cfg.allowed_images ≡ true))
          × (r.1.1 ≡ (provided req image q.1.1).1)
          × (pos 64 ≤ℤ (granted req).0)
          × ((granted req).0 ≤ℤ cfg.max_memory_mb)
          × AtMost f f.tenth (granted req).1
          × AtMost f (granted req).1 cfg.max_cpus
          × (lifetime req ≤ℤ cfg.max_session_seconds))

  resolved-allowed :
      (requested : Option Text) (image : Text)
      → resolve_image repr cfg.default_image cfg.allowed_images requested ≡ ok image
      → (image ≡ cfg.default_image) ⊎ (elem image cfg.allowed_images ≡ true)
  resolved-allowed requested image e =
      elim (resolve_image-outcome repr cfg.default_image cfg.allowed_images requested) [
        | inl (found, same, ok_image, _) ↦
            let agree : ok found ≡ ok image = sym same ∙ e in
            let equal : image ≡ found = ground arith in rw equal ok_image
        | inr (asked, _, _, _, bad) ↦
            let clash : raised
                  (http 400 (image_detail repr cfg.default_image cfg.allowed_images asked))
                ≡ ok image =
              sym bad ∙ e in
            cc
      ]

  kept-world :
      (m : Moment) (timeout : ℤ) (s : Slots) (r : Outcome Text × W)
      → (named (kept f repr cfg p m timeout s r)).1.1 ≡ r.1
  kept-world m timeout s (ok sid, w) = refl
  kept-world m timeout s (raised e, w) = refl

  lifetime-le : (req : CreateSessionRequest f.Float) → lifetime req ≤ℤ cfg.max_session_seconds
  lifetime-le req = ground arith

  -- If the ceilings are no lower than the floors: a request for an image that is not allowed calls
  -- nothing of the provider and changes nothing; one that `acquire` does not admit is answered
  -- with 429, or raises what its recount raised, in the world that the recount left, and creates
  -- nothing; and one that it admits then calls `create` once, for an allowed image and within all ceilings.
  pub create_session-Asked :
      (m : Moment) (req : CreateSessionRequest f.Float) (s : Slots) (w : W)
      → pos 64 ≤ℤ cfg.max_memory_mb
      → AtMost f f.tenth cfg.max_cpus
      → Asked m req s w (create_session f repr cfg p m req (s, w))
  create_session-Asked m req s w h k =
      let q = reservation m s w in
      create_session_cases (Asked m req s w) m req s w (λ e bad. inl (e, bad, refl))
        (λ image e good full. inr (inl (image, e, good, full, refl)))
        (λ image good room.
          let (a, b, c, d) =
            clamp_resources_bounds f req.memory_mb cfg.max_memory_mb req.cpus cfg.max_cpus h k in
          inr (
            inr (
              image,
              good,
              room,
              resolved-allowed req.image image good,
              kept-world m (lifetime req) q.1.0 (provided req image q.1.1),
              a,
              b,
              c,
              d,
              lifetime-le req,
            )))

  -- `destroy_session` frees the slot of that session, and of no other, even if the teardown raises;
  -- the answer is the teardown's.
  pub destroy_session_frees :
      (sid j : Text) (s : Slots) (w : W)
      → let r = destroy_session f repr cfg p sid (s, w) in
        (lookup j r.1.0.deadlines ≡ drop_if (text_eq sid j) (lookup j s.deadlines))
        × (r.0 ≡ (p.destroy sid w).0)
        × (r.1.1 ≡ (p.destroy sid w).1)
  unfolding destroy_session release
  destroy_session_frees sid j s w = (lookup-pop sid j s.deadlines, refl, refl)

  lookup-commit :
      (m : Moment) (timeout : ℤ) (s : Slots) (cap : ℕ) (sid : Text)
      → s.limit ≡ pos (suc cap)
      → lookup sid (commit m.finished sid timeout s).deadlines
        ≡ some (m.finished + pos_part (max_ℤ (pos 0) timeout) * ticks_per_second)
  unfolding commit
  lookup-commit m timeout s cap sid e = ground (
    arith,
    text_eq_refl sid,
    lookup-put sid sid (m.finished + pos_part (max_ℤ (pos 0) timeout) * ticks_per_second)
        s.deadlines,
  )

  Counted : Moment → CreateSessionRequest f.Float → Outcome Session × (Slots × W) → Type 0
  Counted m req r =
      (made : Session)
      → r.0 ≡ ok made
      → lookup made.session_id r.1.0.deadlines
        ≡ some (m.finished + pos_part (max_ℤ (pos 0) (lifetime req)) * ticks_per_second)

  named-Counted :
      (m : Moment) (req : CreateSessionRequest f.Float) (cap : ℕ) (s : Slots) (r : Outcome Text × W)
      → s.limit ≡ pos (suc cap)
      → Counted m req (named (kept f repr cfg p m (lifetime req) s r))
  unfolding Counted
  named-Counted m req cap s (ok sid, w) l made e =
      let same : made.session_id ≡ sid = ground arith in
      rw same (lookup-commit m (lifetime req) s cap sid l)
  named-Counted m req cap s (raised x, w) l made e = cc

  no_session :
      (m : Moment) (req : CreateSessionRequest f.Float) (x : Exception) (st : Slots × W)
      → Counted m req (raised x, st)
  unfolding Counted
  no_session m req x st made e = cc

  create_session-Counted :
      (m : Moment) (req : CreateSessionRequest f.Float) (cap : ℕ) (s : Slots) (w : W)
      → s.limit ≡ pos (suc cap)
      → Counted m req (create_session f repr cfg p m req (s, w))
  create_session-Counted m req cap s w l =
      let q = reservation m s w in
      create_session_cases (Counted m req) m req s w (λ e _. no_session m req e (s, w))
        (λ image e _ _. no_session m req e q.1)
        (λ image _ _.
          named-Counted m req cap q.1.0 (provided req image q.1.1)
            (acquire_with-limit (recount f repr cfg p m) m.asked m.resumed s w ∙ l))

  -- Under a positive limit, a session that `create_session` returns is entered with the deadline that
  -- lies its lifetime, cut to the ceiling, after the commit.
  pub create_session_counted :
      (m : Moment) (req : CreateSessionRequest f.Float) (cap : ℕ) (s : Slots) (w : W)
      (made : Session)
      → s.limit ≡ pos (suc cap)
      → (create_session f repr cfg p m req (s, w)).0 ≡ ok made
      → lookup made.session_id (create_session f repr cfg p m req (s, w)).1.0.deadlines
        ≡ some (m.finished + pos_part (max_ℤ (pos 0) (lifetime req)) * ticks_per_second)
  unfolding Counted
  create_session_counted m req cap s w made l e = create_session-Counted m req cap s w l made e
