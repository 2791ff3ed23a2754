-- ===== src/SoupTcp/Stream.antt =====
-- A stream of frames through the receiving part of vr/vr_rt/src/vr/market/rt/asx/execution_link.cpp: the
-- bytes arrive in segments of any size, and readers release what they are done with in between.
use vrt.Base.{
  ℕ, ◌+◌, ◌≡◌, ◌≤◌, ◌<◌, ◌⊎◌, none, some, List, [], ◌∷◌, ◌++◌, length, drop, leb, if◌then◌else◌,
  All,
}
use vrt.Base.Run.{Run, ok, ◌>>=◌}
use vrt.SoupTcp.Defs.{Visit, dispatch_recv}
use vrt.SoupTcp.Link.{Partition, receive, flush}
use vrt.SoupTcp.Frames.{Frame, encode_all, IsFrame}
use vrt.SoupTcp.Prefix.{IsPart}
use vrt.SoupTcp.Scan.{meant_all}

-- A partition, all bytes that have arrived, the visits made, and the position that is published last.
pub record Stream : Type 0 where
  pub part : Partition
  pub arrived : List ℕ
  pub visits : List Visit
  pub published : ℕ

abbrev pub start : Stream
start = record {
  part = record { recv_pos_begin = 0; recv_size = 0; recv_available = 0 };
  arrived = [];
  visits = [];
  published = 0;
}

pub data Op : Type 0 where
  segment : List ℕ → Op
  release : ℕ → Op

-- New bytes and a poll, or a flush up to a position that readers are done with; they know none above
-- the published one.
abbrev pub step : Op → Stream → Run Stream
step (segment bytes) s = do
  (part, visits, published) ← receive (s.part) (drop (s.part.recv_pos_begin) (s.arrived ++ bytes))
  ok (record {
    part = part;
    arrived = s.arrived ++ bytes;
    visits = s.visits ++ visits;
    published = elim published [ none ↦ s.published | some n ↦ n ];
  })
step (release bound) s =
    if leb bound s.published
    then (do (part, n) ← flush (s.part) (some bound); ok (record s { part = part }))
    else ok s

abbrev pub run : List Op → Stream → Run Stream
run [] s = ok s
run (op ∷ ops) s = do s₁ ← step op s; run ops s₁

abbrev pub received : List Op → List ℕ
received [] = []
received (segment bytes ∷ ops) = bytes ++ received ops
received (release bound ∷ ops) = received ops

-- The visits are those of the whole frames that have arrived, and the published position is their end;
-- the partition counts what it holds and what is left of the next frame.
pub record Tracked (fs : List Frame) (s : Stream) : Type 0 where
  pub done : List Frame
  pub todo : List Frame
  pub left : List ℕ
  pub frames : fs ≡ done ++ todo
  pub arrived : s.arrived ≡ encode_all done ++ left
  pub known : All (IsFrame dispatch_recv) todo
  pub is_part : IsPart left
  pub strict : ((todo ≡ []) × (left ≡ [])) ⊎ (length left < length (encode_all todo))
  pub visits : s.visits ≡ meant_all done
  pub published : s.published ≡ length (encode_all done)
  pub size : s.part.recv_pos_begin + s.part.recv_size ≡ length s.arrived
  pub available : s.part.recv_available ≡ length left
  pub begin : s.part.recv_pos_begin ≤ length (encode_all done)

-- More frames of known types are done.
abbrev pub Further : List Frame → List Frame → Type 0
Further before after =
    (new : List Frame) × All (IsFrame dispatch_recv) new × (after ≡ before ++ new)
