-- ===== src/Rtp/Packet/Parse.antt =====
-- RTPPacket::ParseRawPacket.
use jrtplib.Prelude.{
  ℕ, ◌+◌, ◌-◌, ◌*◌, ◌/◌, ◌%◌, ◌^◌, Bool, true, false, ◌&&◌, ◌||◌, not, List, Option, none, some,
  length, ltb, leb, ◌==◌, if◌then◌else◌, Outcome, ok, err, ◌>>=◌, packet_invalidpacket,
}
use jrtplib.Bytes.{byte_at, u16_at, u32_at}
use jrtplib.Rtp.RawPacket.{RawPacket}
use jrtplib.Rtp.Packet.{RtpPacket}

-- The bit fields of the first two bytes of an RTPHeader.
abbrev pub header_version : ℕ → ℕ
header_version b = b / 64

abbrev pub header_padding : ℕ → Bool
header_padding b = b / 32 % 2 == 1

abbrev pub header_extension : ℕ → Bool
header_extension b = b / 16 % 2 == 1

abbrev pub header_csrccount : ℕ → ℕ
header_csrccount b = b % 16

abbrev pub header_marker : ℕ → Bool
header_marker b = b / 128 == 1

abbrev pub header_payloadtype : ℕ → ℕ
header_payloadtype b = b % 128

-- `packetlen-numpadbytes-payloadoffset` in size_t, cut to the 32 bits of an int.
abbrev pub payload_room : ℕ → ℕ → ℕ → ℕ
payload_room packetlen numpadbytes payloadoffset =
    (packetlen + 2 ^ 64 - numpadbytes - payloadoffset) % 2 ^ 32

-- The number of padding bytes: the last byte of a packet with the padding bit.
last_byte_count : List ℕ → Outcome ℕ
last_byte_count bytes = do
  n ← byte_at bytes (length bytes - 1)
  if n == 0 then err packet_invalidpacket else ok n

unfoldable pub pad_count : List ℕ → ℕ → Outcome ℕ
unfolding last_byte_count
pad_count bytes b0 = if header_padding b0 then last_byte_count bytes else ok 0

-- The extension header's identifier and length in words, read at `at`.
present_extension : List ℕ → ℕ → Outcome (Option (ℕ × ℕ))
present_extension bytes at = do
  words ← u16_at bytes (at + 2)
  id ← u16_at bytes at
  ok (some (id, words))

unfoldable pub extension_header : List ℕ → ℕ → Bool → Outcome (Option (ℕ × ℕ))
unfolding present_extension
extension_header bytes at present = if present then present_extension bytes at else ok none

abbrev pub extension_size : Option (ℕ × ℕ) → ℕ
extension_size none = 0
extension_size (some (id, words)) = 4 + words * 4

-- The members that the extension header sets.
unfoldable pub fill_extension : RtpPacket → ℕ → Option (ℕ × ℕ) → RtpPacket
fill_extension p at none = p
fill_extension p at (some (id, words)) = record p {
  hasextension = true;
  extid = id;
  extension = some (at + 4);
  extensionlength = words * 4;
}

-- `offset` is where the CSRC list ends.
unfoldable pub fill_members : List ℕ → ℕ → ℕ → ℕ → Option (ℕ × ℕ) → ℕ → Outcome RtpPacket
unfolding fill_extension
fill_members bytes b0 b1 offset ext room = do
  seqnr ← u16_at bytes 2
  timestamp ← u32_at bytes 4
  ssrc ← u32_at bytes 8
  let p : RtpPacket = record {
    hasextension = false;
    hasmarker = header_marker b1;
    numcsrcs = header_csrccount b0;
    payloadtype = header_payloadtype b1;
    extseqnr = seqnr;
    timestamp = timestamp;
    ssrc = ssrc;
    packet = bytes;
    payload = offset + extension_size ext;
    payloadlength = room;
    extid = 0;
    extension = none;
    extensionlength = 0;
    externalbuffer = false;
  }
  ok (fill_extension p offset ext)

-- A marked packet with the type of an SR or an RR is taken for RTCP.
abbrev pub looks_like_rtcp : ℕ → Bool
looks_like_rtcp b1 =
    header_marker b1 && (header_payloadtype b1 == 200 % 128 || header_payloadtype b1 == 201 % 128)

-- What follows the checks of the first two bytes.
unfoldable pub parse_body : List ℕ → ℕ → ℕ → Outcome RtpPacket
parse_body bytes b0 b1 = do
  let offset = 12 + header_csrccount b0 * 4
  numpadbytes ← pad_count bytes b0
  ext ← extension_header bytes offset (header_extension b0)
  let room = payload_room (length bytes) numpadbytes (offset + extension_size ext)
  if leb (2 ^ 31) room then err packet_invalidpacket else fill_members bytes b0 b1 offset ext room

unfoldable pub parse_header : List ℕ → Outcome RtpPacket
parse_header bytes = do
  b0 ← byte_at bytes 0
  b1 ← byte_at bytes 1
  if not (header_version b0 == 2) || looks_like_rtcp b1
      then err packet_invalidpacket
      else parse_body bytes b0 b1

unfoldable pub parse_raw_packet : RawPacket → Outcome RtpPacket
parse_raw_packet raw =
    if not raw.isrtp || ltb (length raw.packetdata) 12
    then err packet_invalidpacket
    else parse_header raw.packetdata
