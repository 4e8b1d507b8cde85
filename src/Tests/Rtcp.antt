-- ===== src/Tests/Rtcp.antt =====
-- RTCP packets: each kind, and a compound of a receiver report and an SDES packet.
use jrtplib.Prelude.{
  ℕ, ◌+◌, ◌*◌, ◌≤◌, ◌≡◌, ◌≢◌, ◌↔◌, refl, true, List, [], ◌∷◌, length, ok, fault, arith,
}
use jrtplib.Bytes.{byte_at, u16_at, u32_at, bytes_at}
use jrtplib.Rtcp.Sdes.Iterate.{
  cname, get_chunk_count, goto_first_chunk, goto_next_chunk, get_chunk_ssrc, goto_first_item,
  goto_next_item, get_item_type, get_item_length, get_item_data,
}
use jrtplib.Rtcp.Sdes.Iterate.Reading.{
  SdesItem, read_item, read_items, read_chunk, read_chunks, read_sdes,
}
use jrtplib.Rtcp.Sdes.Iterate.Visits.{ChunksAre, read_sdes-ChunksAre}
use jrtplib.Rtcp.Packet.{
  RtcpPacket, sr, rr, sdes, bye, rtcp_count, new_sr, new_rr, new_bye, strip_padding,
}
use jrtplib.Rtcp.Packet.Fields.{get_count, get_sender_info}
use jrtplib.Rtcp.Packet.Reads.{Unpadded}
use jrtplib.Rtcp.Packet.Reports.{Returns, ReportReads, new_rr_reads, new_sr_reads}
use jrtplib.Rtcp.Packet.Leave.{LeaveFits, LeaveReads, new_bye_reads}
use jrtplib.Rtcp.Sdes.{new_sdes, sdes_known, walk_chunks, walk_items, item_step, close_chunk}
use jrtplib.Rtcp.Sdes.Known.{ValidSdes, new_sdes_known}
use jrtplib.Rtcp.Compound.{parse_data, parse_loop, parse_one, take_packet, go_on, make_packet}
use jrtplib.Rtcp.Compound.Parts.{Packets}
use jrtplib.Rtcp.Compound.Loop.{parse_data-Packets}

-- An empty receiver report with four bytes of padding.
abbrev rr_bytes : List ℕ
rr_bytes = 160 ∷ 201 ∷ 0 ∷ 2 ∷ 0 ∷ 0 ∷ 0 ∷ 7 ∷ 0 ∷ 0 ∷ 0 ∷ 4 ∷ []

rr_known :
    new_rr rr_bytes
    ≡ ok (record {
      packettype = rr;
      data' = rr_bytes;
      knownformat = true;
      reasonoffset = 0;
      appdatalen = 0;
    })
unfolding new_rr strip_padding byte_at
rr_known = refl

new_rr_reads_example :
    (p : RtcpPacket) × (b0 : ℕ) × (new_rr rr_bytes ≡ ok p)
    × (byte_at rr_bytes 0 ≡ ok b0)
    × (p.packettype ≡ rr)
    × (p.data' ≡ rr_bytes)
    × (p.knownformat ≡ true ↔ Unpadded rr_bytes b0 (8 + 24 * rtcp_count b0))
    × (p.knownformat ≡ true → ReportReads p (rtcp_count b0))
new_rr_reads_example = new_rr_reads rr_bytes (omega arith)

-- A sender report without blocks.
abbrev sr_bytes : List ℕ
sr_bytes =
    128 ∷ 200 ∷ 0 ∷ 6 ∷ 0 ∷ 0 ∷ 0 ∷ 7 ∷ 1 ∷ 2 ∷ 3 ∷ 4 ∷ 5 ∷ 6 ∷ 7 ∷ 8 ∷ 0 ∷ 0 ∷ 0 ∷ 1 ∷ 0 ∷ 0 ∷ 0
    ∷ 2 ∷ 0 ∷ 0 ∷ 0 ∷ 3 ∷ []

new_sr_reads_example :
    (p : RtcpPacket) × (b0 : ℕ) × (new_sr sr_bytes ≡ ok p)
    × (byte_at sr_bytes 0 ≡ ok b0)
    × (p.packettype ≡ sr)
    × (p.data' ≡ sr_bytes)
    × (p.knownformat ≡ true ↔ Unpadded sr_bytes b0 (28 + 24 * rtcp_count b0))
    × (p.knownformat ≡ true → ReportReads p (rtcp_count b0) × Returns (get_sender_info p))
new_sr_reads_example = new_sr_reads sr_bytes (omega arith)

-- A BYE of one source with a reason of two bytes.
abbrev bye_bytes : List ℕ
bye_bytes = 129 ∷ 203 ∷ 0 ∷ 2 ∷ 0 ∷ 0 ∷ 0 ∷ 7 ∷ 2 ∷ 104 ∷ 105 ∷ 0 ∷ []

new_bye_reads_example :
    (p : RtcpPacket) × (b0 : ℕ) × (new_bye bye_bytes ≡ ok p)
    × (byte_at bye_bytes 0 ≡ ok b0)
    × (p.packettype ≡ bye)
    × (p.data' ≡ bye_bytes)
    × (p.knownformat ≡ true
        ↔ ((len : ℕ) × Unpadded bye_bytes b0 len × LeaveFits bye_bytes (rtcp_count b0 * 4 + 4) len))
    × (p.knownformat ≡ true
        → (len : ℕ) × Unpadded bye_bytes b0 len × LeaveReads p (rtcp_count b0) len)
new_bye_reads_example = new_bye_reads bye_bytes (omega arith)

-- An SDES packet of one chunk with a CNAME of three bytes.
abbrev sdes_bytes : List ℕ
sdes_bytes = 129 ∷ 202 ∷ 0 ∷ 3 ∷ 0 ∷ 0 ∷ 0 ∷ 7 ∷ 1 ∷ 3 ∷ 97 ∷ 98 ∷ 99 ∷ 0 ∷ 0 ∷ 0 ∷ []

sdes_is_known :
    new_sdes sdes_bytes
    ≡ ok (record {
      packettype = sdes;
      data' = sdes_bytes;
      knownformat = true;
      reasonoffset = 0;
      appdatalen = 0;
    })
unfolding new_sdes strip_padding byte_at sdes_known walk_chunks walk_items item_step close_chunk
sdes_is_known = refl

new_sdes_known_example :
    (p : RtcpPacket) × (b0 : ℕ) × (new_sdes sdes_bytes ≡ ok p)
    × (byte_at sdes_bytes 0 ≡ ok b0)
    × (p.packettype ≡ sdes)
    × (p.data' ≡ sdes_bytes)
    × (p.knownformat ≡ true ↔ ValidSdes sdes_bytes b0)
new_sdes_known_example = new_sdes_known sdes_bytes (omega arith)

-- A receiver report and the SDES packet behind it.
abbrev compound_bytes : List ℕ
compound_bytes = 128 ∷ 201 ∷ 0 ∷ 1 ∷ 0 ∷ 0 ∷ 0 ∷ 7 ∷ sdes_bytes

abbrev parts : List RtcpPacket
parts =
    record {
      packettype = rr;
      data' = 128 ∷ 201 ∷ 0 ∷ 1 ∷ 0 ∷ 0 ∷ 0 ∷ 7 ∷ [];
      knownformat = true;
      reasonoffset = 0;
      appdatalen = 0;
    }
    ∷ record {
      packettype = sdes;
      data' = sdes_bytes;
      knownformat = true;
      reasonoffset = 0;
      appdatalen = 0;
    }
    ∷ []

compound_parsed : parse_data 2 compound_bytes ≡ ok parts
unfolding parse_data parse_loop parse_one take_packet go_on make_packet new_rr new_sdes
    strip_padding byte_at u16_at sdes_known walk_chunks walk_items item_step close_chunk
compound_parsed = refl

parse_data-Packets_example :
    (parse_data 2 compound_bytes ≢ fault)
    × ((ps : List RtcpPacket)
        → parse_data 2 compound_bytes ≡ ok ps ↔ ((length ps ≤ 2) × Packets true ps compound_bytes))
parse_data-Packets_example = parse_data-Packets 2 compound_bytes

abbrev sdes_packet : RtcpPacket
sdes_packet = record {
  packettype = sdes;
  data' = sdes_bytes;
  knownformat = true;
  reasonoffset = 0;
  appdatalen = 0;
}

sdes_is_read : read_sdes sdes_packet ≡ ok ((7, (cname, 97 ∷ 98 ∷ 99 ∷ []) ∷ []) ∷ [])
unfolding read_sdes goto_first_chunk get_chunk_count get_count byte_at read_chunks get_chunk_ssrc
    u32_at u16_at read_chunk goto_first_item read_items read_item get_item_type get_item_length
    get_item_data bytes_at goto_next_item goto_next_chunk
sdes_is_read = refl

read_sdes-ChunksAre_example :
    (b0 : ℕ) × (len : ℕ) × (out : List (ℕ × List SdesItem)) × (byte_at sdes_bytes 0 ≡ ok b0)
    × Unpadded sdes_bytes b0 len
    × (read_sdes sdes_packet ≡ ok out)
    × (length out ≡ rtcp_count b0)
    × ChunksAre sdes_bytes 4 out len
read_sdes-ChunksAre_example = read_sdes-ChunksAre sdes_bytes sdes_packet sdes_is_known refl
