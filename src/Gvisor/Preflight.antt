-- ===== src/Gvisor/Preflight.antt =====
-- `preflight` of `GvisorProvider` (src/llm_sandbox/providers/gvisor.py): is the daemon there, and
-- does it know the configured runtime? Reading JSON text is the library's.
use llm_sandbox.Prelude.{
  ◌≡◌, refl, ap, ◌∙◌, Bool, true, false, ◌&&◌, ◌||◌, List, [], ◌∷◌, ◌++◌, Option, none, some, Text,
  Bytes, codes, elem, ltb, ◌==◌, if◌then◌else◌, arith, text_eq_iff,
}
use llm_sandbox.Python.Strings.{strip, join}
use llm_sandbox.Python.Utf8.{decode, decode_strict}
use llm_sandbox.Python.Json.{
  Json, str, obj, Fields, end, field, find, truth, holds, iterate, keys, ◌>>=◌,
}
use llm_sandbox.Base.Errors.{sandbox_error, failure, Outcome, ok, raised, Run}
use llm_sandbox.Base.Stream.{Process, Reply, run_cli}
use llm_sandbox.Base.Session.{or_else, is_zero}
use llm_sandbox.Gvisor.{Invocation, Gvisor, docker, control}

abbrev pub version_invocation : Invocation
version_invocation =
    control 10 (codes "version" ∷ codes "--format" ∷ codes "{{.Server.Version}}" ∷ [])

abbrev pub info_invocation : Invocation
info_invocation = control 10 (codes "info" ∷ codes "--format" ∷ codes "{{json .Runtimes}}" ∷ [])

-- `a < b` for texts
unfoldable pub text_ltb : Text → Text → Bool
text_ltb [] [] = false
text_ltb [] (d ∷ ds) = true
text_ltb (c ∷ cs) [] = false
text_ltb (c ∷ cs) (d ∷ ds) = ltb c d || (c == d && text_ltb cs ds)

insert : Text → List Text → List Text
insert t [] = t ∷ []
insert t (u ∷ us) = let rest = insert t us in if text_ltb u t then u ∷ rest else t ∷ u ∷ us

-- `sorted(texts)`
unfoldable pub sorted : List Text → List Text
unfolding text_ltb insert
sorted [] = []
sorted (t ∷ ts) = insert t (sorted ts)

abbrev onto_texts : Text → Outcome (List Text) → Outcome (List Text)
onto_texts t (ok ts) = ok (t ∷ ts)
onto_texts t (raised e) = raised e

-- `", ".join` takes texts only.
pub texts : List Json → Outcome (List Text)
texts [] = ok []
texts (str t ∷ vs) = onto_texts t (texts vs)
texts (_ ∷ vs) = raised (failure (codes "TypeError"))

unfoldable pub unregistered : (Text → Text) → Gvisor → List Text → Text
unfolding sorted
unregistered repr g names =
    codes "docker runtime "
    ++ (repr g.docker_runtime
        ++ (codes " is not registered with the daemon (available: "
            ++ (or_else (join (codes ", ") (sorted names)) (codes "none")
                ++ codes
                    ") — install gVisor and register runsc, or set SANDBOX_DOCKER_RUNTIME=runc to accept a box with NO isolation (dev only)")))

abbrev refused : (Text → Text) → Gvisor → Json → Outcome (Unit {0})
refused repr g runtimes = iterate runtimes >>= λ values.
    texts values >>= λ names. raised (sandbox_error (unregistered repr g names))

abbrev decide : (Text → Text) → Gvisor → Json → Bool → Outcome (Unit {0})
decide repr g runtimes registered = if registered then ok tt else refused repr g runtimes

-- The check of the runtimes that the daemon lists.
unfoldable pub check_runtimes : (Text → Text) → Gvisor → Json → Outcome (Unit {0})
unfolding truth holds iterate texts unregistered
check_runtimes repr g runtimes =
    if truth runtimes then holds g.docker_runtime runtimes >>= decide repr g runtimes else ok tt

-- An answer that is no JSON text says nothing.
abbrev runtimes_of : (Text → Option Json) → Bytes → Option Json
runtimes_of loads out = elim (decode_strict out) [
  | none ↦ none
  | some text ↦ loads (or_else text (codes "{}"))
]

runtimes_of_lem :
    (loads : Text → Option Json) (out : Bytes) (text : Text)
    → decode_strict out ≡ some text
    → runtimes_of loads out ≡ loads (or_else text (codes "{}"))
runtimes_of_lem loads out text h = rw (h, runtimes_of)

abbrev judged : (Text → Text) → Gvisor → Option Json → Outcome (Unit {0})
judged repr g none = ok tt
judged repr g (some runtimes) = check_runtimes repr g runtimes

-- The names of an object's members.
abbrev pub names_of : Fields → List Text
names_of end = []
names_of (field k v fs) = k ∷ names_of fs

texts-keys : (fs : Fields) → texts (keys fs) ≡ ok (names_of fs)
unfolding texts
texts-keys end = refl
texts-keys (field k v fs) = rw (texts-keys fs)

holds-names : (t : Text) (fs : Fields) → holds t (obj fs) ≡ ok (elem t (names_of fs))
unfolding holds find
holds-names t end = refl
holds-names t (field k v fs) = ground (arith, holds-names t fs, text_eq_iff k t, text_eq_iff t k)

abbrev pub verdict : (Text → Text) → Gvisor → List Text → Outcome (Unit {0})
verdict repr g names =
    if elem g.docker_runtime names
    then ok tt
    else raised (sandbox_error (unregistered repr g names))

refused-names :
    (repr : Text → Text) (g : Gvisor) (fs : Fields)
    → refused repr g (obj fs) ≡ raised (sandbox_error (unregistered repr g (names_of fs)))
unfolding iterate
refused-names repr g fs = rw (texts-keys fs)

decide-names :
    (repr : Text → Text) (g : Gvisor) (fs : Fields) (b : Bool)
    → decide repr g (obj fs) b
      ≡ (if b then ok tt else raised (sandbox_error (unregistered repr g (names_of fs))))
decide-names repr g fs true = refl
decide-names repr g fs false = refused-names repr g fs

check_runtimes_lem :
    (repr : Text → Text) (g : Gvisor) (k : Text) (v : Json) (fs : Fields)
    → check_runtimes repr g (obj (field k v fs)) ≡ verdict repr g (names_of (field k v fs))
unfolding check_runtimes truth
check_runtimes_lem repr g k v fs =
    ap (λ o. o >>= decide repr g (obj (field k v fs))) (holds-names g.docker_runtime (field k v fs))
    ∙ decide-names repr g (field k v fs) (elem g.docker_runtime (names_of (field k v fs)))

module _ {W : Type 0} (spawn : Invocation → Run W Process) (g : Gvisor) (repr : Text → Text)
    (loads : Text → Option Json) where
  abbrev informed : Outcome Reply × W → Outcome (Unit {0}) × W
  informed (ok reply, w) =
      if is_zero reply.rc then (judged repr g (runtimes_of loads reply.out), w) else (ok tt, w)
  informed (raised e, w) = (raised e, w)

  abbrev versioned : Outcome Reply × W → Outcome (Unit {0}) × W
  versioned (ok reply, w) =
      if is_zero reply.rc then informed (docker spawn g info_invocation w) else (
        raised (sandbox_error (codes "docker daemon unreachable: " ++ strip (decode reply.err))),
        w,
      )
  versioned (raised e, w) = (raised e, w)

  unfoldable pub preflight : Run W (Unit {0})
  unfolding check_runtimes
  preflight w = versioned (docker spawn g version_invocation w)

  -- If the daemon answers, and lists its runtimes as a JSON object that is not empty, `preflight`
  -- returns exactly when the configured runtime is one of the object's names, and raises a
  -- `SandboxError` with the sorted names otherwise.
  pub preflight-names :
      (version info : Process) (w w1 w2 : W) (text k : Text) (v : Json) (fs : Fields)
      → spawn version_invocation w ≡ (ok version, w1)
      → is_zero (run_cli none version).rc ≡ true
      → spawn info_invocation w1 ≡ (ok info, w2)
      → is_zero (run_cli none info).rc ≡ true
      → decode_strict (run_cli none info).out ≡ some text
      → loads (or_else text (codes "{}")) ≡ some (obj (field k v fs))
      → preflight w ≡ (verdict repr g (names_of (field k v fs)), w2)
  unfolding preflight docker
  preflight-names version info w w1 w2 text k v fs asked up told known decoded read =
      rw (asked, up, told, known)
        (ap (λ r. (judged repr g r, w2)) (runtimes_of_lem loads _ text decoded ∙ read)
          ∙ ap (λ o. (o, w2)) (check_runtimes_lem repr g k v fs))
