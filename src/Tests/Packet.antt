-- ===== src/Tests/Packet.antt =====
-- RTP packets: built, received, and a packet that ends before its extension header.
use jrtplib.Prelude.{
  ℕ, ◌<◌, ◌≤◌, ◌≡◌, ◌↔◌, refl, true, false, List, [], ◌∷◌, length, none, some, ok, fault, arith,
  All,
}
use jrtplib.Bytes.{put_u16, put_u32, bytes_at, byte_at, u16_at, u32_at, IsByte}
use jrtplib.Rtp.RawPacket.{raw_packet}
use jrtplib.Rtp.Packet.{RtpPacket}
use jrtplib.Rtp.Packet.Build.{
  BuildArgs, Target, allocated, build_packet, packet_length, fill_packet, header_bytes, csrc_bytes,
}
use jrtplib.Rtp.Packet.Build
use jrtplib.Rtp.Packet.Parse.{
  parse_raw_packet, parse_header, parse_body, pad_count, extension_header, fill_members,
  fill_extension,
}
use jrtplib.Rtp.Packet.Layout.{InRange}
use jrtplib.Rtp.Packet.RoundTrip.{Reads, parse_raw_packet-build_packet}
use jrtplib.Rtp.Packet.RoundTrip.Inversion.{build_packet_size}
use jrtplib.Rtp.Packet.Bounds.{WithinPacket, parse_raw_packet-WithinPacket}
use jrtplib.Rtp.Packet.Overread.{EndsBeforeExtension, parse_raw_packet_overreads}

-- A packet of type 96 with two CSRCs, an extension of one word, and three bytes of payload.
abbrev args : BuildArgs
args = record {
  payloadtype = 96;
  payloaddata = 7 ∷ 8 ∷ 9 ∷ [];
  seqnr = 65535;
  timestamp = 1000;
  ssrc = 4000000000;
  gotmarker = true;
  numcsrcs = 2;
  csrcs = 5 ∷ 6 ∷ [];
  gotextension = true;
  extensionid = 258;
  extensionlen_numwords = 1;
  extensiondata = 1 ∷ 2 ∷ 3 ∷ 4 ∷ [];
}

abbrev wire : List ℕ
wire =
    146 ∷ 224 ∷ 255 ∷ 255 ∷ 0 ∷ 0 ∷ 3 ∷ 232 ∷ 238 ∷ 107 ∷ 40 ∷ 0 ∷ 0 ∷ 0 ∷ 0 ∷ 5 ∷ 0 ∷ 0 ∷ 0 ∷ 6 ∷ 1
    ∷ 2 ∷ 0 ∷ 1 ∷ 1 ∷ 2 ∷ 3 ∷ 4 ∷ 7 ∷ 8 ∷ 9 ∷ []

abbrev built : RtpPacket
built = record {
  hasextension = true;
  hasmarker = true;
  numcsrcs = 2;
  payloadtype = 96;
  extseqnr = 65535;
  timestamp = 1000;
  ssrc = 4000000000;
  packet = wire;
  payload = 28;
  payloadlength = 3;
  extid = 258;
  extension = none;
  extensionlength = 4;
  externalbuffer = false;
}

args-built : build_packet args (allocated true) 1400 ≡ ok built
unfolding build_packet packet_length fill_packet header_bytes csrc_bytes Build.extension_bytes
    put_u16 put_u32 bytes_at
args-built = refl

args-InRange : InRange args
args-InRange = record {
  seqnr = omega arith;
  timestamp = omega arith;
  ssrc = omega arith;
  extensionid = omega arith;
  words = omega arith;
  csrcs = (omega arith, (omega arith, tt));
}

parse_raw_packet-build_packet_example :
    (q : RtpPacket) × (parse_raw_packet (raw_packet wire true) ≡ ok q) × Reads args q
parse_raw_packet-build_packet_example =
    parse_raw_packet-build_packet args (allocated true) 1400 args-built args-InRange (omega arith)

build_packet_size_example : (length wire ≡ packet_length args) × (0 < 1400 → length wire ≤ 1400)
build_packet_size_example = build_packet_size args (allocated true) 1400 args-built

-- What a receiver makes of it.
abbrev received : RtpPacket
received = record built { extension = some 24 }

wire-received : parse_raw_packet (raw_packet wire true) ≡ ok received
unfolding parse_raw_packet parse_header parse_body pad_count extension_header fill_members
    fill_extension byte_at u16_at u32_at
wire-received = refl

wire_bytes : All IsByte wire
wire_bytes = ground arith

parse_raw_packet-WithinPacket_example : WithinPacket wire received
parse_raw_packet-WithinPacket_example =
    parse_raw_packet-WithinPacket wire wire_bytes (omega arith) wire-received

-- Twelve bytes that announce an extension and end.
parse_raw_packet_overreads_example :
    (parse_raw_packet (raw_packet (144 ∷ 96 ∷ 0 ∷ 1 ∷ 0 ∷ 0 ∷ 0 ∷ 0 ∷ 0 ∷ 0 ∷ 0 ∷ 1 ∷ []) true)
      ≡ fault)
    ↔ EndsBeforeExtension 144 96 (0 ∷ 1 ∷ 0 ∷ 0 ∷ 0 ∷ 0 ∷ 0 ∷ 0 ∷ 0 ∷ 1 ∷ [])
parse_raw_packet_overreads_example =
    parse_raw_packet_overreads 144 96 (0 ∷ 1 ∷ 0 ∷ 0 ∷ 0 ∷ 0 ∷ 0 ∷ 0 ∷ 0 ∷ 1 ∷ []) (omega arith)
