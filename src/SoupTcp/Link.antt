-- ===== src/SoupTcp/Link.antt =====
-- How vr/vr_rt/src/vr/market/rt/asx/execution_link.cpp receives: `step` scans the new bytes of a
-- partition for whole frames, publishes the position after the last one, and flushes what its readers
-- are done with. Positions and sizes are unbounded.
use vrt.Base.{
  ℕ, zero, suc, ◌+◌, ◌-◌, Option, none, some, List, [], ◌∷◌, ◌++◌, length, drop, ltb, ◌==◌, leb,
  if◌then◌else◌,
}
use vrt.Base.Int.{pos, negsuc}
use vrt.Base.Run.{Run, ok, fault, ◌>>=◌, ◌>>◌, assert}
use vrt.SoupTcp.Defs.{Visit, hdr_len, consume_recv}

-- The fields of `partition` for receiving.
pub record Partition : Type 0 where
  pub recv_pos_begin : ℕ
  pub recv_size : ℕ
  pub recv_available : ℕ

abbrev pub visits_of : Option Visit → List Visit
visits_of none = []
visits_of (some v) = v ∷ []

-- The loop over the frames: how many bytes it parses, and its visits.
unfoldable pub scan : (rounds : ℕ) → List ℕ → Run (ℕ × List Visit)
scan zero bytes = fault
scan (suc n) bytes =
    if leb hdr_len (length bytes)
    then (do
      (rrc, visit) ← consume_recv 0 bytes
      elim rrc [
        | negsuc k ↦ ok (0, visits_of visit)
        | pos k ↦ do
          (parsed, visits) ← scan n (drop k bytes)
          ok (k + parsed, visits_of visit ++ visits)
      ])
    else ok (0, [])

-- A poll of the link, which has all bytes received and not flushed: the new partition, the visits, and
-- the position that is published, if any.
unfoldable pub receive : Partition → List ℕ → Run (Partition × List Visit × Option ℕ)
receive p polled =
    if ltb p.recv_size (length polled)
    then (do
      assert (leb p.recv_available p.recv_size)
      let recv_size_adj = p.recv_size - p.recv_available
      let bytes = drop recv_size_adj polled
      (parsed, visits) ← scan (suc (length bytes)) bytes
      ok (
        record p { recv_size = length polled; recv_available = length bytes - parsed },
        visits,
        (if ltb 0 parsed then some (p.recv_pos_begin + parsed + recv_size_adj) else none),
      ))
    else ok (p, [], none)

-- The flush of received bytes, up to the least position that a reader still needs, if there is one:
-- the new partition, and how many bytes the link flushes.
unfoldable pub flush : Partition → (pos_min_bound : Option ℕ) → Run (Partition × ℕ)
flush p none = ok (p, 0)
flush p (some bound) =
    if ltb p.recv_pos_begin bound
    then (do
      let pos_increment = bound - p.recv_pos_begin
      assert (leb pos_increment p.recv_size)
      ok (
        record p { recv_pos_begin = bound; recv_size = p.recv_size - pos_increment },
        pos_increment,
      ))
    else ok (p, 0)

-- The loop of `execution_manager::update` over the new bytes of a partition, the first frame in any case.
unfoldable pub read_all : (rounds : ℕ) → List ℕ → Run (ℕ × List Visit)
read_all zero bytes = fault
read_all (suc n) bytes = do
  (rrc, visit) ← consume_recv 0 bytes
  elim rrc [
    | negsuc k ↦ ok (0, visits_of visit)
    | pos k ↦
        let rest = read_all n (drop k bytes) in
        if leb hdr_len (length (drop k bytes))
        then (do (consumed, visits) ← rest; ok (k + consumed, visits_of visit ++ visits))
        else ok (k, visits_of visit)
  ]

-- `execution_manager::update` of one partition: from the reader's position, and the bytes of the stream
-- up to the published position that it sees, to the reader's new position and its visits. The source
-- takes the bytes from the address `m_end - available`; here they are those after the reader's position,
-- and the memory of bytes that have been flushed is not modelled.
unfoldable pub update : (position : ℕ) → List ℕ → Run (ℕ × List Visit)
update position received =
    let available = length received - position in
    if ltb 0 available
    then (do
      assert (leb hdr_len available)
      (consumed, visits) ← read_all (suc available) (drop position received)
      assert (consumed == available)
      ok (position + consumed, visits))
    else ok (position, [])
