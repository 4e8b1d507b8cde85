-- ===== src/Rtcp/Compound.antt =====
-- RTCPCompoundPacket (src/rtcpcompoundpacket.h, src/rtcpcompoundpacket.cpp) as it is received.
pub mod Parts
pub mod Loop
use jrtplib.Prelude.{
  ℕ, zero, suc, ◌+◌, ◌-◌, ◌*◌, Bool, true, false, not, ◌||◌, ◌&&◌, List, [], ◌∷◌, length, drop,
  take, ltb, Option, none, some, leb, ◌==◌, if◌then◌else◌, Outcome, ok, err, fault, ◌>>=◌,
  rtcpcompound_invalidpacket, out_of_mem,
}
use jrtplib.Bytes.{byte_at, u16_at, bytes_at}
use jrtplib.Rtp.RawPacket.{RawPacket, zero_data}
use jrtplib.Rtcp.Packet.{
  new_unknown, RtcpPacket, new_packet, rtcp_version, rtcp_padding, new_sr, new_rr, new_bye, new_app,
  unknown,
}
use jrtplib.Rtcp.Sdes.{new_sdes}

-- The packet object for a packet type, with the memory of the packet.
unfoldable pub make_packet : ℕ → List ℕ → Outcome RtcpPacket
make_packet packettype bytes =
    if packettype == 200
    then new_sr bytes
    else if packettype == 201
    then new_rr bytes
    else if packettype == 202
    then new_sdes bytes
    else if packettype == 203
    then new_bye bytes
    else if packettype == 204
    then new_app bytes
    else ok (new_unknown bytes)

-- The checks of one header: version, kind of the first packet, length and padding.
abbrev pub header_ok : Bool → ℕ → ℕ → ℕ → ℕ → Bool
header_ok first b0 packettype len datalen =
    rtcp_version b0 == 2
    && (not first || (packettype == 200 || packettype == 201))
    && leb len datalen
    && (not (rtcp_padding b0) || len == datalen)

-- The packet at the start of the data once its header is read. `room` tells whether RTPNew finds
-- memory.
unfoldable pub take_packet : Bool → Bool → ℕ → ℕ → ℕ → List ℕ → Outcome (RtcpPacket × ℕ)
take_packet room first b0 packettype len data' =
    if not (header_ok first b0 packettype len (length data'))
    then err rtcpcompound_invalidpacket
    else if not room
    then err out_of_mem
    else (do p ← make_packet packettype (take len data'); ok (p, len))

-- One round of the loop: the packet and its length.
unfoldable pub parse_one : Bool → Bool → List ℕ → Outcome (RtcpPacket × ℕ)
unfolding take_packet
parse_one room first data' = do
  b0 ← byte_at data' 0
  packettype ← byte_at data' 1
  words ← u16_at data' 2
  take_packet room first b0 packettype ((words + 1) * 4) data'

-- Behind a packet, with `left` bytes to go: the next round, the end, or remaining bytes.
unfoldable pub go_on : RtcpPacket → ℕ → Outcome (List RtcpPacket) → Outcome (List RtcpPacket)
go_on p left more =
    if leb 4 left
    then (do ps ← more; ok (p ∷ ps))
    else if left == 0
    then ok (p ∷ [])
    else err rtcpcompound_invalidpacket

-- The loop. RTPNew finds memory for `room` packets. Each round uses up four bytes at
-- least; the fault stands for running out of fuel.
unfoldable pub parse_loop : ℕ → ℕ → Bool → List ℕ → Outcome (List RtcpPacket)
unfolding parse_one go_on
parse_loop zero room first data' = fault
parse_loop (suc fuel) room first data' = do
  (p, len) ← parse_one (ltb 0 room) first data'
  let more = parse_loop fuel (room - 1) false (drop len data')
  go_on p (length (drop len data')) more

unfoldable pub parse_data : ℕ → List ℕ → Outcome (List RtcpPacket)
unfolding parse_loop
parse_data room bytes =
    if ltb (length bytes) 4
    then err rtcpcompound_invalidpacket
    else parse_loop (length bytes) room true bytes

-- `rtcppackit` is where the iteration stands: the packets that are still to come.
pub record CompoundPacket : Type 0 where
  pub compoundpacket : List ℕ
  pub deletepacket : Bool
  pub rtcppacklist : List RtcpPacket
  pub rtcppackit : List RtcpPacket

-- The constructor for a byte array.
unfoldable pub new_compound : ℕ → List ℕ → Bool → Outcome CompoundPacket
unfolding parse_data
new_compound room bytes deletedata = do
  ps ← parse_data room bytes
  ok (record {
    compoundpacket = bytes;
    deletepacket = deletedata;
    rtcppacklist = ps;
    rtcppackit = ps;
  })

-- The constructor for a raw packet, whose data the object takes over if the call succeeds.
unfoldable pub new_compound_raw : ℕ → RawPacket → Outcome CompoundPacket × RawPacket
unfolding new_compound
new_compound_raw room raw =
    if raw.isrtp
    then (err rtcpcompound_invalidpacket, raw)
    else elim (new_compound room raw.packetdata true) [
      | ok c ↦ (ok c, zero_data raw)
      | err e ↦ (err e, raw)
      | fault ↦ (fault, raw)
    ]

unfoldable pub goto_first_packet : CompoundPacket → CompoundPacket
goto_first_packet c = record c { rtcppackit = c.rtcppacklist }

unfoldable pub get_next_packet : CompoundPacket → Option RtcpPacket × CompoundPacket
get_next_packet c = elim c.rtcppackit [
  | [] ↦ (none, c)
  | p ∷ rest ↦ (some p, record c { rtcppackit = rest })
]
