-- ===== src/K8s/Api.antt =====
-- `ApiServer` of src/llm_sandbox/providers/k8s.py: where the API server is, the bearer token with its
-- cache, and a request.  The clock is a number of ticks, an argument of each call; the token file is
-- its text at each moment. The HTTP client is a parameter.
pub mod Token
mod Tests
use llm_sandbox.Prelude.{
  ℕ, ◌+◌, ◌-◌, ◌*◌, ◌||◌, Bool, true, false, List, [], ◌∷◌, ◌++◌, Option, none, some, Text, codes,
  ltb, if◌then◌else◌,
}
use llm_sandbox.Python.Strings.{strip, contains}
use llm_sandbox.Python.Query.{urlencode}
use llm_sandbox.Python.Json.{Json, obj, end}
use llm_sandbox.Base.Errors.{Exception, failure, Outcome, ok, raised, Run}
use llm_sandbox.Base.Session.{or_else}
use llm_sandbox.Config.{Environ, env_or}
use llm_sandbox.App.Slots.{ticks_per_second}
use llm_sandbox.K8s.Manifest.{is_empty}
use llm_sandbox.K8s.Sessions.{Request}

-- `_TOKEN_TTL`
abbrev pub token_ttl : ℕ
token_ttl = 60 * ticks_per_second

pub record Client : Type 0 where
  pub authority : Text
  pub token : Text
  pub token_at : ℕ
  -- the HTTP client has been made, and not closed
  pub is_open : Bool

abbrev bracketed : Text → Text
bracketed host = if contains (codes ":") host then codes "[" ++ (host ++ codes "]") else host

-- `__init__`: the address is read from the environment.
unfoldable pub connect : Environ → Outcome Client
connect env =
    let host = env_or env (codes "KUBERNETES_SERVICE_HOST") [] in
    let port =
      or_else (env_or env (codes "KUBERNETES_SERVICE_PORT_HTTPS") [])
        (or_else (env_or env (codes "KUBERNETES_SERVICE_PORT") []) (codes "443")) in
    if is_empty host
    then raised (
        failure (
          codes
            "KUBERNETES_SERVICE_HOST is unset — SANDBOX_PROVIDER=k8s only works from inside the cluster (the service runs as a Deployment; see example_k8s/deployment.yaml)"))
    else ok (record {
      authority = bracketed host ++ (codes ":" ++ port);
      token = [];
      token_at = 0;
      is_open = false;
    })

-- `default_namespace`, of the text of the namespace file; none for an `OSError`.
unfoldable pub default_namespace : Option Text → Text
default_namespace none = codes "default"
default_namespace (some text) = strip text

-- The text of the token file at each moment; none where it cannot be read.
abbrev pub TokenFile : Type 0
TokenFile = ℕ → Option Text

abbrev pub header_of : Text → Text
header_of token = codes "Bearer " ++ token

abbrev pub reread : ℕ → Client → Option Text → Outcome Text × Client
reread now c none = (raised (failure (codes "OSError")), c)
reread now c (some text) =
    (ok (header_of (strip text)), record c { token = strip text; token_at = now })

-- `_bearer`
unfoldable pub bearer : TokenFile → ℕ → Client → Outcome Text × Client
bearer file now c =
    if is_empty c.token || ltb token_ttl (now - c.token_at)
    then reread now c (file now)
    else (ok (header_of c.token), c)

abbrev named : Outcome Text × Client → Outcome (List (Text × Text)) × Client
named (ok header, c) = (ok ((codes "Authorization", header) ∷ []), c)
named (raised e, c) = (raised e, c)

-- `start` and `close`
abbrev pub start : Client → Client
start c = record c { is_open = true }

abbrev pub close : Client → Client
close c = record c { is_open = false }

-- What the HTTP client is given.
pub record Sent : Type 0 where
  pub request : Request
  pub headers : List (Text × Text)

-- `resp.status_code, resp.json()`
abbrev pub answered :
    {W : Type 0}
    → (Text → Option Json)
    → Client
    → Outcome (ℕ × Text) × W
    → Outcome (ℕ × Json) × (Client × W)
answered loads c (raised e, w) = (raised e, (c, w))
answered loads c (ok (status, body), w) =
    (ok (status, elim (loads body) [ none ↦ obj end | some v ↦ v ]), (c, w))

abbrev pub authorized :
    {W : Type 0}
    → (Sent → Run W (ℕ × Text))
    → (Text → Option Json)
    → Request
    → W
    → Outcome Text × Client
    → Outcome (ℕ × Json) × (Client × W)
authorized send loads r w (raised e, c) = (raised e, (c, w))
authorized send loads r w (ok header, c) = answered loads c (
    send
      (record {
        request = r;
        headers = (codes "Authorization", header) ∷ (codes "Accept", codes "application/json") ∷ [];
      })
      w)

-- `request`, at the moment that the token is looked at.
unfoldable pub request :
    {W : Type 0}
    → (Sent → Run W (ℕ × Text))
    → (Text → Option Json)
    → TokenFile
    → ℕ
    → Request
    → Run (Client × W) (ℕ × Json)
unfolding bearer
request send loads file now r (c, w) =
    authorized send loads r w (bearer file now (if c.is_open then c else start c))

-- The headers of `ws_kwargs`
unfoldable pub ws_headers : TokenFile → ℕ → Client → Outcome (List (Text × Text)) × Client
unfolding bearer
ws_headers file now c = named (bearer file now c)

-- `ws_url`
unfoldable pub ws_url : Client → Text → List (Text × Text) → Text
ws_url c path query = codes "wss://" ++ (c.authority ++ (path ++ (codes "?" ++ urlencode query)))
