-- ===== src/SoupTcp/Defs.antt =====
-- `consume` of vr/vr_rt/src/vr/market/net/SoupTCP_.h, for the two directions. The bytes that are
-- available are a list. A visit gets the address of the message; the bytes from there on, as many as
-- the header's length gives, stand for it.
use vrt.Base.{
  ℕ, ◌+◌, ◌*◌, Option, none, some, List, [], ◌∷◌, length, take, drop, leb, ◌==◌, if◌then◌else◌,
}
use vrt.Base.Int.{ℤ, pos, negsuc, ◌+ℤ◌, ltℤ, positive_part, int16}
use vrt.Base.Run.{Run, ok, fault, ◌>>=◌, ◌>>◌, assert}

-- `SoupTCP_packet_hdr`; `length` is a big-endian `int16_t`
pub record PacketHdr : Type 0 where
  pub length : ℤ
  pub type : ℕ

-- The visits of the two directions.
pub data Visit : Type 0 where
  payload login_accepted login_rejected login_request : List ℕ → Visit
  heartbeat eos debug : Visit

abbrev pub hdr_len : ℕ
hdr_len = 3

unfoldable pub read_hdr : List ℕ → Run PacketHdr
read_hdr [] = fault
read_hdr (hi ∷ []) = fault
read_hdr (hi ∷ lo ∷ []) = fault
read_hdr (hi ∷ lo ∷ type ∷ rest) = ok (record { length = int16 (hi * 256 + lo); type = type })

-- The switch of `consume`, server to client: 'S', 'A', 'J', 'H', 'Z' and '+'.
unfoldable pub dispatch_recv : ℕ → List ℕ → Run Visit
dispatch_recv type message =
    if type == 83
    then ok (payload message)
    else (if type == 65
        then ok (login_accepted message)
        else (if type == 74
            then ok (login_rejected message)
            else (if type == 72
                then ok heartbeat
                else (if type == 90 then ok eos else (if type == 43 then ok debug else fault)))))

-- The switch of `consume`, client to server: 'U', 'L' and 'R'.
unfoldable pub dispatch_send : ℕ → List ℕ → Run Visit
dispatch_send type message =
    if type == 85
    then ok (payload message)
    else (if type == 76
        then ok (login_request message)
        else (if type == 82 then ok heartbeat else fault))

-- `consume`, with the switch of its direction and the `min_size` of what it encapsulates. The result
-- is the count of bytes consumed, or -1 for a partial message.
unfoldable pub consume : (ℕ → List ℕ → Run Visit) → (min_size : ℕ) → List ℕ → Run (ℤ × Option Visit)
unfolding read_hdr
consume dispatch min_size bytes = do
  assert (leb (hdr_len + min_size) (length bytes))
  hdr ← read_hdr bytes
  let soup_len : ℤ = pos hdr_len +ℤ hdr.length +ℤ negsuc 0
  if ltℤ (pos (length bytes)) soup_len then ok (negsuc 0, none) else (do
    visit ← dispatch (hdr.type) (take (positive_part (hdr.length +ℤ negsuc 0)) (drop hdr_len bytes))
    ok (soup_len, some visit))

unfoldable pub consume_recv : (min_size : ℕ) → List ℕ → Run (ℤ × Option Visit)
unfolding consume dispatch_recv
consume_recv = consume dispatch_recv

unfoldable pub consume_send : (min_size : ℕ) → List ℕ → Run (ℤ × Option Visit)
unfolding consume dispatch_send
consume_send = consume dispatch_send
