-- ===== src/K8s/Exec.antt =====
-- `_exec_cli` of `K8sProvider` (src/llm_sandbox/providers/k8s.py): the address of the exec stream,
-- and a command run over it. The WebSocket is a parameter.
pub mod Words
pub mod Reports
mod Tests
use llm_sandbox.Prelude.{
  ℕ, ◌+◌, Bool, true, false, List, [], ◌∷◌, ◌++◌, Option, none, some, Text, Bytes, codes, map,
}
use llm_sandbox.Python.Json.{Json}
use llm_sandbox.Python.Query.{urlencode}
use llm_sandbox.Base.Errors.{Exception, Outcome, ok, raised, Run, ◌>>=◌, return}
use llm_sandbox.Base.Stream.{Reply}
use llm_sandbox.Base.Session.{Call, Transport}
use llm_sandbox.K8s.Manifest.{K8s}
use llm_sandbox.K8s.Sessions.{pod}
use llm_sandbox.K8s.Stream.{
  Frame, stream, stdin_frames, stdin_chunk, Attempt, ended, timed_out, refused, exec_reply,
}
use llm_sandbox.K8s.Api.{Client, ws_url}

abbrev stdin_flag : Option Bytes → Text
stdin_flag none = codes "false"
stdin_flag (some stdin) = codes "true"

abbrev pub flags : Option Bytes → List (Text × Text)
flags stdin =
    (codes "stdout", codes "true")
    ∷ (codes "stderr", codes "true")
    ∷ (codes "tty", codes "false")
    ∷ (codes "stdin", stdin_flag stdin)
    ∷ []

-- `query`
unfoldable pub exec_query : List Text → Option Bytes → List (Text × Text)
exec_query argv stdin = map (λ word. (codes "command", word)) argv ++ flags stdin

abbrev pub exec_path : K8s → Text → Text
exec_path k sid =
    codes "/api/v1/namespaces/" ++ (k.namespace ++ (codes "/pods/" ++ (pod sid ++ codes "/exec")))

unfoldable pub exec_url : Client → K8s → Text → List Text → Option Bytes → Text
unfolding exec_query ws_url
exec_url c k sid argv stdin = ws_url c (exec_path k sid) (exec_query argv stdin)

-- How the opening of the socket ended: with v5 or an older protocol, with `InvalidStatus`, or at the
-- call's deadline.
pub data Opened : Type 0 where
  accepted : Bool → Opened
  turned_down : ℕ → Opened
  too_late : Opened

-- The frames received until the server closed, or the call's deadline.
pub data Received : Type 0 where
  closed : List Frame → Received
  cut_off : Received

pub record Socket (W : Type 0) : Type 0 where
  pub connect : Text → ℕ → Run W Opened
  pub exchange : List Bytes → Run W Received

-- What `_stream` sends before it receives.
abbrev pub to_send : Option Bytes → List Bytes
to_send none = []
to_send (some stdin) = stdin_frames stdin_chunk stdin

abbrev replied : Outcome (List Bytes × Reply) → Attempt
replied (ok (sent, reply)) = ended (ok reply)
replied (raised e) = ended (raised e)

module _ {W : Type 0} (socket : Socket W) (loads : Bytes → Option Json) (c : Client) (k : K8s) where
  abbrev finished : Bool → Option Bytes → Received → Attempt
  finished v5 stdin (closed frames) = replied (stream loads k.max_output_bytes v5 stdin frames)
  finished v5 stdin cut_off = timed_out

  -- An older protocol cannot end the input, so it gets none.
  abbrev streamed : Option Bytes → Opened → Run W Attempt
  streamed stdin (turned_down status) = return (refused status)
  streamed stdin too_late = return timed_out
  streamed (some stdin) (accepted false) = return (finished false (some stdin) (closed []))
  streamed none (accepted v5) =
      socket.exchange (to_send none) >>= λ received. return (finished v5 none received)
  streamed (some stdin) (accepted true) = socket.exchange (to_send (some stdin)) >>= λ received.
      return (finished true (some stdin) received)

  -- `_exec_cli`
  unfoldable pub exec_cli : Text → Call → Run W Reply
  unfolding exec_url stream exec_reply
  exec_cli sid call = do
    opened ← socket.connect (exec_url c k sid call.argv call.stdin) call.timeout
    attempt ← streamed call.stdin opened
    λ w. (exec_reply sid attempt, w)
