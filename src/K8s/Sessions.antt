-- ===== src/K8s/Sessions.antt =====
-- The lifecycle of a session in `K8sProvider` (src/llm_sandbox/providers/k8s.py): `create` with
-- `_wait_ready`, `destroy`, `live_session_ids` and `preflight`, over the calls of the API server. An
-- answer has the parts of its JSON object that the code reads; log lines are left out.
pub mod Waiting
pub mod Polling
pub mod Cleanup
pub mod Listing
pub mod Reaping
mod Tests
use llm_sandbox.Prelude.{
  ℕ, zero, suc, ◌+◌, Bool, true, false, ◌&&◌, ◌||◌, List, [], ◌∷◌, ◌++◌, Option, none, some, Text,
  codes, text_eq, elem, any, drop, length, ltb, leb, ◌==◌, if◌then◌else◌, keep, map,
}
use llm_sandbox.Prelude.Int.{ℤ}
use llm_sandbox.Python.Decimal.{decimal}
use llm_sandbox.Python.Strings.{strip, starts_with, contains, lower}
use llm_sandbox.Base.Errors.{
  Exception, sandbox_error, cancelled, Outcome, ok, raised, Run, after, ◌>>=◌, ◌>>◌, return, throw,
}
use llm_sandbox.Base.Session.{or_else}
use llm_sandbox.Python.Json.{Json}
use llm_sandbox.K8s.Manifest.{K8s, manifest}

pub data Verb : Type 0 where
  get post delete : Verb

pub record Request : Type 0 where
  pub verb : Verb
  pub path : Text
  pub params : List (Text × Text)
  pub body : Option Json
  pub timeout : ℕ

-- `pod.get("status", {})`
pub record PodStatus : Type 0 where
  pub phase : Option Text
  -- the type and the status of each condition
  pub conditions : List (Text × Text)
  -- the reason for which each container waits
  pub waiting : List (Option Text)

pub record Payload : Type 0 where
  pub message : Option Text
  -- what `str` makes of the payload; nothing for an empty one
  pub shown : Text
  pub pod : PodStatus
  -- the names of the pods of a list
  pub names : List (Option Text)

pub record Answer : Type 0 where
  pub status : ℕ
  pub payload : Payload

-- A text that may be missing, with its default.
abbrev pub text_or : Text → Option Text → Text
text_or default none = default
text_or default (some t) = t

-- `api_error`
unfoldable pub api_error : Answer → Text
api_error a =
    codes "HTTP "
    ++ (decimal a.status
        ++ (codes ": "
            ++ or_else (text_or [] a.payload.message)
                (or_else a.payload.shown (codes "no detail"))))

abbrev pub name_prefix : Text
name_prefix = codes "llmsbx-"

-- `_pod`
abbrev pub pod : Text → Text
pod sid = name_prefix ++ sid

-- `_pods_path`
abbrev pub pods_path : K8s → Text → Text
pods_path k [] = codes "/api/v1/namespaces/" ++ (k.namespace ++ codes "/pods")
pods_path k (c ∷ cs) =
    codes "/api/v1/namespaces/" ++ (k.namespace ++ (codes "/pods" ++ (codes "/" ++ (c ∷ cs))))

abbrev pub session_label : Text × Text
session_label = (codes "labelSelector", codes "app=llm-sandbox-session")

abbrev pub create_request : K8s → Json → Request
create_request k body = record {
  verb = post;
  path = pods_path k [];
  params = [];
  body = some body;
  timeout = 30;
}

abbrev pub status_request : K8s → Text → Request
status_request k name = record {
  verb = get;
  path = pods_path k name;
  params = [];
  body = none;
  timeout = 10;
}

abbrev pub destroy_request : K8s → Text → Request
destroy_request k sid = record {
  verb = delete;
  path = pods_path k (pod sid);
  params =
      (codes "gracePeriodSeconds", codes "0")
      ∷ (codes "propagationPolicy", codes "Background")
      ∷ [];
  body = none;
  timeout = 30;
}

abbrev pub list_request : K8s → Request
list_request k = record {
  verb = get;
  path = pods_path k [];
  params =
      session_label
      ∷ (codes "fieldSelector", codes "status.phase!=Succeeded,status.phase!=Failed")
      ∷ [];
  body = none;
  timeout = 15;
}

abbrev preflight_request : K8s → Request
preflight_request k = record {
  verb = get;
  path = pods_path k [];
  params = (codes "limit", codes "1") ∷ session_label ∷ [];
  body = none;
  timeout = 10;
}

-- Why the POST of `create` was refused.
unfoldable pub refusal : (Text → Text) → K8s → Answer → Text
unfolding api_error
refusal repr k a =
    if contains (codes "runtimeclass") (lower (text_or [] a.payload.message))
    then codes "RuntimeClass "
      ++ (repr k.runtime_class
          ++ (codes
                " rejected — is gVisor installed on the cluster (RuntimeClass + runsc node group)? ("
              ++ (api_error a ++ codes ")")))
    else if a.status == 403
    then codes "service account may not create pods — apply example_k8s/rbac.yaml ("
      ++ (api_error a ++ codes ")")
    else codes "sandbox create failed: " ++ api_error a

unfoldable pub is_ready : PodStatus → Bool
is_ready s = any (λ c. text_eq c.0 (codes "Ready") && text_eq c.1 (codes "True")) s.conditions

-- The last reason that is not empty.
pub last_waiting : Text → List (Option Text) → Text
last_waiting waiting [] = waiting
last_waiting waiting (reason ∷ reasons) = last_waiting (or_else (text_or [] reason) waiting) reasons

-- What a round of the loop makes of an answer: the pod is ready, or will not be, for this reason,
-- or another round comes with this reason so far.
pub data Seen : Type 0 where
  ready : Seen
  broken waits : Text → Seen

abbrev pub judged : Text → Text → Seen
judged phase waiting =
    let reason = strip (phase ++ (codes " " ++ waiting)) in
    if elem waiting (
      codes "ErrImagePull"
      ∷ codes "ImagePullBackOff"
      ∷ codes "InvalidImageName"
      ∷ codes "CreateContainerConfigError"
      ∷ codes "CreateContainerError"
      ∷ [])
    then broken reason
    else if elem phase (codes "Failed" ∷ codes "Succeeded" ∷ [])
    then broken reason
    else waits reason

unfoldable pub judge : Text → Answer → Seen
unfolding is_ready last_waiting
judge reason a =
    if leb 400 a.status
    then waits reason
    else if is_ready a.payload.pod
    then ready
    else judged (text_or (codes "Pending") a.payload.pod.phase)
        (last_waiting [] a.payload.pod.waiting)
