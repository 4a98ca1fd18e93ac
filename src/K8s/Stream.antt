-- ===== src/K8s/Stream.antt =====
-- The exec transport of src/llm_sandbox/providers/k8s.py: `_stream` over the frames of a WebSocket,
-- and `_exec_cli` round it.
pub mod Laws
mod Tests
use llm_sandbox.Prelude.{
  ℕ, zero, suc, ◌+◌, ◌≡◌, refl, Bool, true, false, ◌||◌, List, [], ◌∷◌, ◌++◌, Option, none, some,
  Text, Bytes, codes, ◌==◌, if◌then◌else◌, take, drop, length, map,
}
use llm_sandbox.Prelude.Int.{ℤ, pos}
use llm_sandbox.Python.Decimal.{decimal}
use llm_sandbox.Base.Errors.{Exception, sandbox_error, session_not_found, Outcome, ok, raised}
use llm_sandbox.Base.Stream.{extend, Reply, timeout_reply}
use llm_sandbox.Python.Json.{Json, ◌>>=◌}
use llm_sandbox.K8s.ExitCode.{exit_code}

-- The channels that the code names.
abbrev pub stdin_channel : ℕ
stdin_channel = 0

abbrev pub stdout_channel : ℕ
stdout_channel = 1

abbrev pub stderr_channel : ℕ
stderr_channel = 2

abbrev pub error_channel : ℕ
error_channel = 3

abbrev pub close_channel : ℕ
close_channel = 255

pub data Frame : Type 0 where
  text : Text → Frame
  binary : Bytes → Frame

pub record Buffers : Type 0 where
  pub out : Bytes
  pub err : Bytes
  pub status : Bytes

-- One round of the receive loop; `limit` is one more than the output cap.
unfoldable pub receive : ℕ → Buffers → Frame → Buffers
receive limit b (text t) = b
receive limit b (binary []) = b
receive limit b (binary (channel ∷ payload)) =
    if channel == error_channel
    then record b { status = b.status ++ payload }
    else if channel == stdout_channel
    then record b { out = extend limit b.out payload }
    else if channel == stderr_channel
    then record b { err = extend limit b.err payload }
    else b

pub receive_all : ℕ → Buffers → List Frame → Buffers
receive_all limit b [] = b
receive_all limit b (frame ∷ frames) = receive_all limit (receive limit b frame) frames

-- `stdin[i:i + size]` for `i` in steps of `size`, on fuel of one round for each byte.
pub chunks_of : ℕ → ℕ → Bytes → List Bytes
chunks_of zero size payload = []
chunks_of (suc fuel) size [] = []
chunks_of (suc fuel) size (b ∷ bs) = take size (b ∷ bs) ∷ chunks_of fuel size (drop size (b ∷ bs))

abbrev pub stdin_chunk : ℕ
stdin_chunk = 262144

-- The frames that `_stream` sends: the payload on the stdin channel, then the half-close.
unfoldable pub stdin_frames : ℕ → Bytes → List Bytes
unfolding chunks_of
stdin_frames size payload =
    map (λ chunk. stdin_channel ∷ chunk) (chunks_of (length payload) size payload)
    ++ (close_channel ∷ stdin_channel ∷ []) ∷ []

abbrev no_half_close : Text
no_half_close =
    codes
      "apiserver negotiated the v4 exec protocol, which cannot half-close stdin — writing files needs Kubernetes >= 1.30 (v5.channel.k8s.io)"

abbrev with_code : Buffers → ℤ → Reply
with_code b code = record { rc = code; out = b.out; err = b.err }

-- `_stream`: what is sent, and the reply, from whether v5 was negotiated and the frames received.
unfoldable pub stream :
    (Bytes → Option Json) → ℕ → Bool → Option Bytes → List Frame → Outcome (List Bytes × Reply)
unfolding receive_all receive stdin_frames
stream loads max_output_bytes v5 none frames = do
  let b = receive_all (max_output_bytes + 1) (record { out = []; err = []; status = [] }) frames
  code ← exit_code loads b.status
  ok ([], with_code b code)
stream loads max_output_bytes false (some stdin) frames = raised (sandbox_error no_half_close)
stream loads max_output_bytes true (some stdin) frames = do
  let b = receive_all (max_output_bytes + 1) (record { out = []; err = []; status = [] }) frames
  code ← exit_code loads b.status
  ok (stdin_frames stdin_chunk stdin, with_code b code)

-- How the awaited `_stream` ended.
pub data Attempt : Type 0 where
  ended : Outcome Reply → Attempt
  timed_out : Attempt
  -- `InvalidStatus`, with the HTTP status
  refused : ℕ → Attempt

-- `_exec_cli` from there on.
unfoldable pub exec_reply : Text → Attempt → Outcome Reply
exec_reply sid (ended o) = o
exec_reply sid timed_out = ok timeout_reply
exec_reply sid (refused status) =
    if status == 404
    then raised (session_not_found sid)
    else raised
        (sandbox_error (codes "apiserver refused exec (HTTP " ++ (decimal status ++ codes ")")))
