-- ===== src/SoupTcp/Tests.antt =====
-- A heartbeat and a payload of two bytes in the stream of
-- vr/vr_rt/src/vr/market/rt/asx/execution_link.cpp.
use vrt.Base.{ℕ, ◌≡◌, ◌<◌, ◌⊎◌, refl, List, [], ◌∷◌, ◌++◌, length, take, All, arith}
use vrt.Base.Run.{ok}
use vrt.SoupTcp.Defs.{Visit, payload, heartbeat, dispatch_recv, consume_recv, consume, read_hdr}
use vrt.SoupTcp.Link.{update, scan, receive, flush}
use vrt.SoupTcp.Frames.{Frame, encode_all, IsFrame}
use vrt.SoupTcp.Prefix.{IsPart, []-IsPart}
use vrt.SoupTcp.Scan.{meant_all, scan-encode}
use vrt.SoupTcp.Stream.{Stream, Op, segment, release, start, run}
use vrt.SoupTcp.Deliver.{run-meant, run-meant_all}
use vrt.SoupTcp.Reader.{run-update}

abbrev two_frames : List Frame
two_frames = record { type = 72; body = [] } ∷ record { type = 83; body = 1 ∷ 2 ∷ [] } ∷ []

known_frames : All (IsFrame dispatch_recv) two_frames
unfolding dispatch_recv
known_frames = ((omega arith, heartbeat, refl), ((omega arith, payload (1 ∷ 2 ∷ []), refl), tt))

-- The second frame arrives in two parts, with a flush between them.
abbrev segments : List Op
segments = segment (0 ∷ 1 ∷ 72 ∷ 0 ∷ 3 ∷ []) ∷ release 3 ∷ segment (83 ∷ 1 ∷ 2 ∷ []) ∷ []

segments_visits :
    run segments start
    ≡ ok (record {
      part = record { recv_pos_begin = 3; recv_size = 5; recv_available = 0 };
      arrived = 0 ∷ 1 ∷ 72 ∷ 0 ∷ 3 ∷ 83 ∷ 1 ∷ 2 ∷ [];
      visits = heartbeat ∷ payload (1 ∷ 2 ∷ []) ∷ [];
      published = 8;
    })
unfolding receive scan consume_recv consume read_hdr dispatch_recv flush
segments_visits = refl

run-meant_all_example :
    (s : Stream) × (run segments start ≡ ok s) × (s.visits ≡ meant_all two_frames)
run-meant_all_example = run-meant_all two_frames segments known_frames refl

run-meant_example :
    (s : Stream) × (done : List Frame) × (todo : List Frame) × (left : List ℕ) × (run
        (segment (0 ∷ 1 ∷ 72 ∷ 0 ∷ []) ∷ [])
        start
      ≡ ok s)
    × (two_frames ≡ done ++ todo)
    × (0 ∷ 1 ∷ 72 ∷ 0 ∷ [] ≡ encode_all done ++ left)
    × (((todo ≡ []) × (left ≡ [])) ⊎ (length left < length (encode_all todo)))
    × IsPart left
    × (s.visits ≡ meant_all done)
    × (s.published ≡ length (encode_all done))
run-meant_example =
    run-meant two_frames (segment (0 ∷ 1 ∷ 72 ∷ 0 ∷ []) ∷ []) (3 ∷ 83 ∷ 1 ∷ 2 ∷ []) known_frames
      refl

scan-encode_example : scan 9 (encode_all two_frames ++ []) ≡ ok (8, meant_all two_frames)
scan-encode_example = scan-encode two_frames [] 9 known_frames []-IsPart (omega arith)

-- The reader's position is after the heartbeat.
run-update_example :
    (s₁ : Stream) × (s₂ : Stream) × (visits : List Visit) × (run
        (segment (0 ∷ 1 ∷ 72 ∷ 0 ∷ []) ∷ [])
        start
      ≡ ok s₁)
    × (run (segment (3 ∷ 83 ∷ 1 ∷ 2 ∷ []) ∷ []) s₁ ≡ ok s₂)
    × (s₂.visits ≡ s₁.visits ++ visits)
    × (update s₁.published (take s₂.published s₂.arrived) ≡ ok (s₂.published, visits))
run-update_example =
    run-update two_frames (segment (0 ∷ 1 ∷ 72 ∷ 0 ∷ []) ∷ []) (segment (3 ∷ 83 ∷ 1 ∷ 2 ∷ []) ∷ [])
      [] known_frames refl
