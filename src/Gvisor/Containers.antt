-- ===== src/Gvisor/Containers.antt =====
-- Session ids and container names of src/llm_sandbox/providers/gvisor.py.
use llm_sandbox.Prelude.{
  ◌≡◌, ◌≢◌, refl, ap, ◌∙◌, arith, List, [], ◌∷◌, ◌++◌, none, some, Text, Bytes, All, All-append,
  map, keep, drop, length,
}
use llm_sandbox.Prelude.Int.{pos}
use llm_sandbox.Python.Strings.{words, words_of, flush, is_space, starts_with}
use llm_sandbox.Python.Utf8.{encode, decode}
use llm_sandbox.Python.Utf8.RoundTrip.{IsScalar, decode-encode}
use llm_sandbox.Python.Decimal.RoundTrip.{Solid}
use llm_sandbox.Base.Errors.{ok, Run, after}
use llm_sandbox.Base.Stream.{concat, pump, pump-concat, Process, exited, run_cli}
use llm_sandbox.Gvisor.{
  Invocation, Gvisor, container, name_prefix, session_names, list_invocation, live_session_ids,
}

-- One name on each line, as `docker ps --format "{{.Names}}"` writes them.
abbrev pub lines : List Text → Text
lines [] = []
lines (name ∷ names) = name ++ b'\n' ∷ lines names

abbrev Proper : Text → Type 0
Proper s = Solid s × (s ≢ [])

words_of-line : (s : Text) (rest : Text) → Solid s → words_of (s ++ b'\n' ∷ rest) ≡ (s, words rest)
unfolding words words_of is_space
words_of-line [] rest h = refl
words_of-line (c ∷ cs) rest (p, h) = rw p (ap (λ r. (c ∷ r.0, r.1)) (words_of-line cs rest h))

words-lines : (names : List Text) → All Proper names → words (lines names) ≡ names
unfolding words
words-lines [] h = refl
words-lines ([] ∷ names) ((p, q), h) = absurd (q refl)
words-lines ((c ∷ cs) ∷ names) ((p, q), h) =
    ap (λ r. flush r.0 r.1) (words_of-line (c ∷ cs) (lines names) p)
    ∙ ap (◌∷◌ (c ∷ cs)) (words-lines names h)

container-Proper : (sid : Text) → Solid sid → Proper (container sid)
unfolding is_space
container-Proper sid h = ((refl, (refl, (refl, (refl, (refl, (refl, (refl, h))))))), cc)

containers-Proper : (sids : List Text) → All Solid sids → All Proper (map container sids)
containers-Proper [] h = tt
containers-Proper (sid ∷ sids) (p, h) = (container-Proper sid p, containers-Proper sids h)

kept :
    (sids : List Text)
    → map (drop (length name_prefix)) (keep (starts_with name_prefix) (map container sids)) ≡ sids
unfolding starts_with
kept [] = refl
kept (sid ∷ sids) = ap (◌∷◌ sid) (kept sids)

session_names-lines :
    (sids : List Text) → All Solid sids → session_names (lines (map container sids)) ≡ sids
unfolding session_names
session_names-lines sids h =
    ap (λ names. map (drop (length name_prefix)) (keep (starts_with name_prefix) names))
      (words-lines (map container sids) (containers-Proper sids h))
    ∙ kept sids

lines-IsScalar :
    (sids : List Text) → All (All IsScalar) sids → All IsScalar (lines (map container sids))
lines-IsScalar [] h = tt
lines-IsScalar (sid ∷ sids) (p, h) =
    All-append IsScalar (container sid) (b'\n' ∷ lines (map container sids))
      (All-append IsScalar name_prefix sid (omega arith) p) (omega arith, lines-IsScalar sids h)

-- If docker lists the containers of these sessions, one name on a line, in whatever chunks, the
-- provider answers with exactly these session ids: `live_session_ids` undoes the naming of `create`.
pub live_session_ids-containers :
    {W : Type 0} (spawn : Invocation → Run W Process) (g : Gvisor) (sids : List Text)
    (outs errs : List Bytes) (w w' : W)
    → All Solid sids
    → All (All IsScalar) sids
    → All (λ c. c ≢ []) outs
    → concat outs ≡ encode (lines (map container sids))
    → spawn list_invocation w ≡ (ok (exited (some (pos 0)) outs errs), w')
    → live_session_ids spawn g w ≡ (ok (some sids), w')
unfolding live_session_ids run_cli
live_session_ids-containers spawn g sids outs errs w w' h k n e ran =
    let listed : decode (pump none [] outs) ≡ lines (map container sids) =
      ap decode ((pump-concat outs n).1 ∙ e)
      ∙ decode-encode (lines (map container sids)) (lines-IsScalar sids k) in
    rw (ran, after)
      (ap (λ names. (ok (some names), w')) (ap session_names listed ∙ session_names-lines sids h))
