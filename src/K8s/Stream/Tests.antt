-- ===== src/K8s/Stream/Tests.antt =====
-- The exec transport at concrete frames.
use llm_sandbox.Prelude.{◌≡◌, ◌≤◌, refl, List, [], ◌∷◌, some, codes, length, All}
use llm_sandbox.K8s.Stream.{Frame, text, binary, stdin_frames, chunks_of, receive_all}
use llm_sandbox.K8s.Stream.Laws.{delivered, stdin_frames-delivered, receive_all_lem}

abbrev frames : List Frame
frames =
    binary (1 ∷ codes "ab")
    ∷ text (codes "x")
    ∷ binary (2 ∷ codes "e")
    ∷ binary (1 ∷ codes "cd")
    ∷ binary []
    ∷ []

reassembled_test :
    receive_all 3 (record { out = []; err = []; status = [] }) frames
    ≡ record { out = codes "abc"; err = codes "e"; status = [] }
reassembled_test = receive_all_lem 3 frames

stdin_frames-delivered_example :
    (delivered (stdin_frames 2 (codes "abc")) ≡ some (codes "abc"))
    × All (λ c. (1 ≤ length c) × (length c ≤ 2)) (chunks_of (length (codes "abc")) 2 (codes "abc"))
stdin_frames-delivered_example = stdin_frames-delivered 1 (codes "abc")

frames_test :
    stdin_frames 2 (codes "abc") ≡ (0 ∷ codes "ab") ∷ (0 ∷ codes "c") ∷ (255 ∷ 0 ∷ []) ∷ []
unfolding stdin_frames
frames_test = refl
