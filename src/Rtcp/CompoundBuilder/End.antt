-- ===== src/Rtcp/CompoundBuilder/End.antt =====
-- EndBuild of RTCPCompoundPacketBuilder (src/rtcpcompoundpacketbuilder.cpp). What is written into
-- the buffer is the list of the packets written so far; a write behind the buffer is a fault.
use jrtplib.Prelude.{
  ℕ, zero, suc, ◌+◌, ◌-◌, Bool, true, false, not, ◌&&◌, List, [], ◌∷◌, ◌++◌, map, some, length,
  take, drop, ltb, ◌==◌, if◌then◌else◌, Outcome, ok, err, fault, ◌>>=◌, out_of_mem,
  rtcpcomppackbuilder_notbuilding, rtcpcomppackbuilder_noreportpresent,
}
use jrtplib.Bytes.{put_u32}
use jrtplib.Rtcp.Packet.{RtcpPacket}
use jrtplib.Rtcp.Compound.{make_packet}
use jrtplib.Rtcp.CompoundBuilder.{
  CompoundBuilder, Report, SdesSource, clear_build_buffers, report_bytes, sdes_bytes, Step, done,
  refuse,
}
use jrtplib.Rtcp.CompoundBuilder.Farewell.{packet_bytes, zeros, padding_of}

-- A packet of the compound packet: its type and its bytes.
abbrev pub Part : Type 0
Part = ℕ × List ℕ

abbrev pub concat : List (List ℕ) → List ℕ
concat [] = []
concat (x ∷ xs) = x ++ concat xs

unfoldable pub report_part : Report → Bool → List (List ℕ) → Part
report_part r firstpacket blocks =
    if firstpacket && r.is_sr
    then (200, packet_bytes (length blocks) 200 (r.headerdata ++ concat blocks))
    else (201, packet_bytes (length blocks) 201 (take 4 r.headerdata ++ concat blocks))

-- The loop over the report blocks, at most 31 in a packet. A round that has blocks left takes
-- some, so one round more than there are blocks is enough.
unfoldable pub report_parts : ℕ → Report → Bool → List (List ℕ) → List Part
unfolding report_part
report_parts zero r firstpacket blocks = []
report_parts (suc fuel) r firstpacket blocks =
    let more = report_parts fuel r false (drop 31 blocks) in
    report_part r firstpacket (take 31 blocks) ∷ (if length (drop 31 blocks) == 0 then [] else more)

-- A chunk that starts at `offset` of its packet.
unfoldable pub chunk_bytes : ℕ → SdesSource → List ℕ
chunk_bytes offset s =
    put_u32 s.ssrc
    ++ (concat s.items ++ (0 ∷ zeros (padding_of (offset + 4 + length (concat s.items) + 1))))

unfoldable pub chunks_bytes : ℕ → List SdesSource → List ℕ
unfolding chunk_bytes
chunks_bytes offset [] = []
chunks_bytes offset (s ∷ ss) =
    chunk_bytes offset s ++ chunks_bytes (offset + length (chunk_bytes offset s)) ss

unfoldable pub sdes_part : List SdesSource → Part
unfolding chunks_bytes
sdes_part ss = (202, packet_bytes (length ss) 202 (chunks_bytes 4 ss))

-- The loop over the SDES sources, at most 31 in a packet.
unfoldable pub sdes_parts : ℕ → List SdesSource → List Part
unfolding sdes_part
sdes_parts zero ss = []
sdes_parts (suc fuel) ss =
    let more = sdes_parts fuel (drop 31 ss) in
    if length ss == 0 then [] else sdes_part (take 31 ss) ∷ more

unfoldable pub parts : CompoundBuilder → List Part
unfolding report_parts sdes_parts
parts b =
    report_parts (suc (length b.report.reportblocks)) b.report true b.report.reportblocks
    ++ (sdes_parts (length b.sdessources) b.sdessources
        ++ (map (λ p. (204, p)) b.apppackets ++ map (λ p. (203, p)) b.byepackets))

-- The packets are written one behind the other into `left` bytes, and an object is made of each,
-- for which RTPNew finds memory `room` times.
unfoldable pub add_parts : ℕ → ℕ → List Part → Outcome (List RtcpPacket)
add_parts room left [] = ok []
add_parts room left ((packettype, bytes) ∷ rest) =
    if ltb left (length bytes) then fault else if room == 0 then err out_of_mem else (do
      p ← make_packet packettype bytes
      ps ← add_parts (room - 1) (left - length bytes) rest
      ok (p ∷ ps))

abbrev pub written : List Part → List ℕ
written [] = []
written ((packettype, bytes) ∷ rest) = bytes ++ written rest

abbrev pub built_length : CompoundBuilder → ℕ
built_length b = b.appsize + b.byesize + report_bytes b.report + sdes_bytes b.sdessources

abbrev pub built : CompoundBuilder → List RtcpPacket → CompoundBuilder
built b ps = clear_build_buffers (record b {
  compoundpacket = some (written (parts b));
  compoundpacketlength = built_length b;
  arebuilding = false;
  rtcppacklist = b.rtcppacklist ++ ps;
})

-- The end of EndBuild: the packets stand in the buffer, or there was no memory for one of them.
unfoldable pub finish : CompoundBuilder → Outcome (List RtcpPacket) → Step
unfolding parts
finish b (ok ps) = done (built b ps)
finish b (err e) = (record b { rtcppacklist = [] }, err e)
finish b fault = (b, fault)

abbrev pub capacity : CompoundBuilder → ℕ
capacity b = if b.external then b.maximumpacketsize else built_length b

-- `given` tells whether there is memory for the packet where it is not external.
unfoldable pub end_build : CompoundBuilder → Bool → ℕ → Step
unfolding add_parts parts finish
end_build b given room =
    if not b.arebuilding
    then refuse b rtcpcomppackbuilder_notbuilding
    else if b.report.headerlength == 0
    then refuse b rtcpcomppackbuilder_noreportpresent
    else if not b.external && not given
    then refuse b out_of_mem
    else finish b (add_parts room (capacity b) (parts b))
