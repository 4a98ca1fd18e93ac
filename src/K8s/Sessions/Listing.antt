-- ===== src/K8s/Sessions/Listing.antt =====
-- `live_session_ids` and `preflight` of `K8sProvider` (src/llm_sandbox/providers/k8s.py).
use llm_sandbox.Prelude.{
  ◌≡◌, refl, ap, List, [], ◌∷◌, ◌++◌, Option, none, some, Text, codes, map, keep, drop, length, leb,
  ◌==◌, if◌then◌else◌,
}
use llm_sandbox.Python.Strings.{starts_with}
use llm_sandbox.Base.Errors.{sandbox_error, ok, Run, after, ◌>>=◌, return, throw}
use llm_sandbox.K8s.Manifest.{K8s}
use llm_sandbox.K8s.Sessions.{
  Request, Answer, api_error, name_prefix, pod, list_request, preflight_request, text_or,
}

-- `{n[len(prefix):] for n in names if n.startswith(prefix)}`, as a list.
unfoldable pub session_names : List (Option Text) → List Text
session_names names =
    map (drop (length name_prefix)) (keep (starts_with name_prefix) (map (text_or []) names))

module _ {W : Type 0} (api : Request → Run W Answer) (k : K8s) where
  unfoldable pub live_session_ids : Run W (Option (List Text))
  unfolding session_names
  live_session_ids = do
    a ← api (list_request k)
    return (if leb 400 a.status then none else some (session_names a.payload.names))

  unfoldable pub preflight : (Text → Text) → Run W (Unit {0})
  preflight repr = do
    a ← api (preflight_request k)
    if a.status == 403
        then throw (
            sandbox_error (
              codes "service account may not list pods in namespace "
              ++ (repr k.namespace
                  ++ (codes " — apply example_k8s/rbac.yaml (" ++ (api_error a ++ codes ")")))))
        else (if leb 400 a.status
            then throw (
                sandbox_error
                  (codes "apiserver unreachable or rejecting us (" ++ (api_error a ++ codes ")")))
            else return tt)

session_names-pods : (sids : List Text) → session_names (map (λ sid. some (pod sid)) sids) ≡ sids
unfolding session_names starts_with
session_names-pods [] = refl
session_names-pods (sid ∷ sids) = ap (◌∷◌ sid) (session_names-pods sids)

-- A listing of the pods of these sessions gives back exactly their ids; an answer with an error
-- status gives none.
pub live_session_ids-pods :
    {W : Type 0} (api : Request → Run W Answer) (k : K8s) (sids : List Text) (a : Answer) (w w' : W)
    → api (list_request k) w ≡ (ok a, w')
    → a.payload.names ≡ map (λ sid. some (pod sid)) sids
    → live_session_ids api k w ≡ (ok (if leb 400 a.status then none else some sids), w')
unfolding live_session_ids
live_session_ids-pods api k sids a w w' e names =
    rw (e, after) (rw (names, session_names-pods sids) refl)
