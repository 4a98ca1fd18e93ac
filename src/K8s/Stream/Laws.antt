-- ===== src/K8s/Stream/Laws.antt =====
-- What `_stream` of src/llm_sandbox/providers/k8s.py collects and sends.
use llm_sandbox.Prelude.{
  ℕ, zero, suc, ◌≤◌, ◌≡◌, refl, ap, ◌∙◌, sym, arith, List, [], ◌∷◌, ◌++◌, Option, none, some, Bytes,
  ◌==◌, if◌then◌else◌, take, drop, length, map, take-append-drop, length-drop, length-take, All,
  append-nil, append_assoc,
}
use mathlib.Core.Option
use llm_sandbox.Base.Stream.{extend-take, concat}
use llm_sandbox.K8s.Stream.{
  Frame, text, binary, Buffers, receive, receive_all, chunks_of, stdin_frames, stdout_channel,
  stderr_channel, error_channel, stdin_channel, close_channel,
}

-- What the frames carry on one channel.
abbrev pub carried : ℕ → List Frame → Bytes
carried channel [] = []
carried channel (text t ∷ frames) = carried channel frames
carried channel (binary [] ∷ frames) = carried channel frames
carried channel (binary (c ∷ payload) ∷ frames) =
    (if c == channel then payload else []) ++ carried channel frames

abbrev holding : ℕ → Bytes → Bytes → Bytes → Buffers
holding limit out err status = record {
  out = take limit out;
  err = take limit err;
  status = status;
}

abbrev part : ℕ → ℕ → Bytes → Bytes
part c channel payload = if c == channel then payload else []

receive-carried :
    (limit : ℕ) (out err status : Bytes) (c : ℕ) (payload : Bytes)
    → receive limit (holding limit out err status) (binary (c ∷ payload))
      ≡ holding limit
          (out ++ part c stdout_channel payload)
          (err ++ part c stderr_channel payload)
          (status ++ part c error_channel payload)
unfolding receive
receive-carried limit out err status c payload = ground (
  arith,
  extend-take limit out payload,
  extend-take limit err payload,
  append-nil out,
  append-nil err,
  append-nil status,
)

receive_all-carried :
    (limit : ℕ) (out err status : Bytes) (frames : List Frame)
    → receive_all limit (holding limit out err status) frames
      ≡ holding limit
          (out ++ carried stdout_channel frames)
          (err ++ carried stderr_channel frames)
          (status ++ carried error_channel frames)
unfolding receive_all receive
receive_all-carried limit out err status [] = simp append-nil
receive_all-carried limit out err status (text t ∷ frames) =
    receive_all-carried limit out err status frames
receive_all-carried limit out err status (binary [] ∷ frames) =
    receive_all-carried limit out err status frames
receive_all-carried limit out err status (binary (c ∷ payload) ∷ frames) =
    ap (λ b. receive_all limit b frames)
      (unfold receive in receive-carried limit out err status c payload)
    ∙ receive_all-carried limit (out ++ part c stdout_channel payload)
        (err ++ part c stderr_channel payload) (status ++ part c error_channel payload) frames
    ∙ simp append_assoc

take_nothing : (limit : ℕ) → ◌≡◌ {A = Bytes} (take limit []) []
take_nothing zero = refl
take_nothing (suc n) = refl

empty_holding : (limit : ℕ) → holding limit [] [] [] ≡ record { out = []; err = []; status = [] }
empty_holding limit = rw (take_nothing limit)

-- However the server cuts its output into frames, and whatever else it sends, stdout and stderr are
-- the first `limit` bytes of what it sent on their channels, and the status is all of its channel.
pub receive_all_lem :
    (limit : ℕ) (frames : List Frame)
    → receive_all limit (record { out = []; err = []; status = [] }) frames ≡ record {
      out = take limit (carried stdout_channel frames);
      err = take limit (carried stderr_channel frames);
      status = carried error_channel frames;
    }
receive_all_lem limit frames =
    ap (λ b. receive_all limit b frames) (sym (empty_holding limit))
    ∙ receive_all-carried limit [] [] [] frames

-- Splitting loses nothing: the chunks are the payload, each of at most `size` bytes.
concat-chunks_of :
    (fuel size : ℕ) (payload : Bytes)
    → length payload ≤ fuel
    → concat (chunks_of fuel (suc size) payload) ≡ payload
unfolding chunks_of
concat-chunks_of zero size [] h = refl
concat-chunks_of zero size (b ∷ bs) h = absurd (omega arith)
concat-chunks_of (suc fuel) size [] h = refl
concat-chunks_of (suc fuel) size (b ∷ bs) h =
    ap (λ rest. b ∷ (take size bs ++ rest))
      (concat-chunks_of fuel size (drop size bs) (omega (arith, length-drop size bs)))
    ∙ ap (◌∷◌ b) (take-append-drop size bs)

chunks_of-All :
    (fuel size : ℕ) (payload : Bytes)
    → All (λ c. (1 ≤ length c) × (length c ≤ suc size)) (chunks_of fuel (suc size) payload)
unfolding chunks_of
chunks_of-All zero size payload = tt
chunks_of-All (suc fuel) size [] = tt
chunks_of-All (suc fuel) size (b ∷ bs) =
    ((omega arith, omega (arith, length-take size bs)), chunks_of-All fuel size (drop size bs))

-- What the server reads of the frames sent: the stdin payload up to the half-close.
abbrev pub delivered : List Bytes → Option Bytes
delivered [] = none
delivered ([] ∷ frames) = delivered frames
delivered ((c ∷ chunk) ∷ frames) =
    let rest = delivered frames in
    if c == close_channel
    then some []
    else if c == stdin_channel
    then Option.map (λ t. chunk ++ t) rest
    else rest

delivered-map :
    (chunks : List Bytes)
    → delivered
        (map (λ chunk. stdin_channel ∷ chunk) chunks ++ (close_channel ∷ stdin_channel ∷ []) ∷ [])
      ≡ some (concat chunks)
delivered-map [] = refl
delivered-map (c ∷ cs) = rw (delivered-map cs)

-- The frames that carry stdin deliver exactly the payload, then its end, for every payload and every
-- positive chunk size; no chunk is empty or over that size.
pub stdin_frames-delivered :
    (size : ℕ) (payload : Bytes)
    → (delivered (stdin_frames (suc size) payload) ≡ some payload)
      × All
          (λ c. (1 ≤ length c) × (length c ≤ suc size))
          (chunks_of (length payload) (suc size) payload)
unfolding stdin_frames
stdin_frames-delivered size payload = (
  delivered-map (chunks_of (length payload) (suc size) payload)
      ∙ ap some (concat-chunks_of (length payload) size payload (omega arith)),
  chunks_of-All (length payload) size payload,
)
