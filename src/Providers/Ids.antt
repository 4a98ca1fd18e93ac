-- ===== src/Providers/Ids.antt =====
-- The ids that the providers mint (`uuid.uuid4().hex[:16]`, src/llm_sandbox/providers/gvisor.py and
-- k8s.py) and the pattern that src/llm_sandbox/app.py has for them.
use llm_sandbox.Prelude.{
  ℕ, zero, suc, ◌≡◌, refl, arith, Bool, true, false, [], ◌∷◌, some, Text, length, take, length-take,
  all, if◌then◌else◌,
}
use llm_sandbox.Prelude.Int.{ℤ}
use llm_sandbox.Base.Errors.{Exception, Outcome, ok, raised, Run, after, return, throw}
use llm_sandbox.Base.Session.{is_zero}
use llm_sandbox.Base.Stream.{Process, Reply}
use llm_sandbox.App.Auth.{is_hex, is_session_id}
use llm_sandbox.Gvisor.{Invocation, Gvisor, create}
use llm_sandbox.Providers.{Machine, gvisor_provider}

-- `uuid4().hex`: 32 hexadecimal digits.
abbrev pub IsUuid : Text → Type 0
IsUuid random = (length random ≡ 32) × (all is_hex random ≡ true)

all-take : (p : ℕ → Bool) (n : ℕ) (s : Text) → all p s ≡ true → all p (take n s) ≡ true
all-take p zero s h = refl
all-take p (suc n) [] h = refl
all-take p (suc n) (c ∷ cs) h = ground (arith, all-take p n cs)

take-IsSessionId : (random : Text) → IsUuid random → is_session_id (take 16 random) ≡ true
unfolding is_session_id
take-IsSessionId random (long, digits) =
    ground (arith, length-take 16 random, all-take is_hex 16 random digits)

made_or_thrown :
    {W : Type 0} (made sid : Text) (b : Bool) (e : Exception) (w : W)
    → ((if b then return made else throw e) w).0 ≡ ok sid
    → sid ≡ made
made_or_thrown made sid true e w h = ground arith
made_or_thrown made sid false e w h = ground arith

-- A reply that is turned into an id or an error gives that id.
minted :
    {W : Type 0} (made sid : Text) (e : Reply → Exception) (r : Outcome Reply × W)
    → (after (λ reply. if is_zero reply.rc then return made else throw (e reply)) r).0 ≡ ok sid
    → sid ≡ made
minted made sid e (ok reply, w) h = made_or_thrown made sid (is_zero reply.rc) (e reply) w h
minted made sid e (raised x, w) h = ground arith

module _ {Float W : Type 0} (m : Machine Float W) (spawn : Invocation → Run W Process) (g : Gvisor)
    (mints : (w w' : W) (random : Text) → m.uuid w ≡ (ok random, w') → IsUuid random) where
  create-IsSessionId :
      (image sid : Text) (timeout : ℤ) (network : Bool) (memory_mb : ℤ) (cpus : Float) (w : W)
      (r : Outcome Text × W)
      → m.uuid w ≡ r
      → (after
          (λ random.
            create spawn g m.repr m.show
              (take 16 random)
              (some image)
              timeout
              network
              memory_mb
              cpus)
          r).0
        ≡ ok sid
      → is_session_id sid ≡ true
  unfolding create
  create-IsSessionId image sid timeout network memory_mb cpus w (ok random, w') e h =
      rw (minted (take 16 random) sid _ _ h) (take-IsSessionId random (mints w w' random e))
  create-IsSessionId image sid timeout network memory_mb cpus w (raised x, w') e h = ground arith

  -- If a uuid is 32 hexadecimal digits, every id that `create` returns over gVisor matches the pattern
  -- that the routes have for session ids.
  pub gvisor_create-IsSessionId :
      (image sid : Text) (timeout : ℤ) (network : Bool) (memory_mb : ℤ) (cpus : Float) (w : W)
      → ((gvisor_provider m spawn g).create image timeout network memory_mb cpus w).0 ≡ ok sid
      → is_session_id sid ≡ true
  unfolding gvisor_provider
  gvisor_create-IsSessionId image sid timeout network memory_mb cpus w h =
      create-IsSessionId image sid timeout network memory_mb cpus w (m.uuid w) refl h
