-- ===== src/Rtp/Packet/RoundTrip.antt =====
-- ParseRawPacket on the packets that BuildPacket makes.
pub mod Inversion
mod Memory
use jrtplib.Prelude.{
  ap, ◌∙◌, ℕ, zero, suc, ◌+◌, ◌-◌, ◌*◌, ◌^◌, ◌≤◌, ◌<◌, ◌≡◌, refl, sym, ap, ◌∙◌, Bool, true, false,
  List, [], ◌∷◌, ◌++◌, ◌≢◌, ◌==◌, Option, none, some, length, get_or, take, drop, ltb, min, Outcome,
  ok, err, arith, length-append, length-take, length-drop, Bool-cases, inl, inr, >>=-eq-ok,
  ok-injective, if◌then◌else◌, leb, ◌>>=◌, take-length, le→ltb, lt→leb,
}
use mathlib.Core.List.{append_assoc, append-nil}
use jrtplib.Bytes.{
  byte_at, u16_at, u32_at, bytes_at, put_u16, put_u32, u32_at-append, u16_at-append, u16_at-put_u16,
  bytes_at-append, length-put_u16,
}
use jrtplib.Rtp.RawPacket.{raw_packet}
use jrtplib.Rtp.Packet.{RtpPacket, get_csrc, payload_bytes, extension_bytes, get_sequence_number}
use jrtplib.Rtp.Packet.Parse.{
  extension_header, extension_size, payload_room, fill_members, fill_extension, parse_body,
  parse_header, parse_raw_packet, pad_count, header_padding, header_version, looks_like_rtcp,
  header_extension, header_csrccount, header_marker, header_payloadtype,
}
use jrtplib.Rtp.Packet.Build.{
  BuildArgs, Target, header_bytes, csrc_bytes, fill_packet, build_packet, packet_length,
}
use jrtplib.Rtp.Packet.Build
use jrtplib.Rtp.Packet.Layout.{
  InRange, first_byte, second_byte, first_byte_fields, second_byte_fields, length-header_bytes,
  header_byte_0, header_byte_1, header_seqnr, header_timestamp, header_ssrc, length-csrc_bytes,
  u32_at-csrc_bytes,
}
use Inversion.{
  Built, build_packet-Built, expected_extension, Extended, ext-Extended, length-bytes_at,
  length-ext, extension_header-ext,
}
use Memory.{
  parsed, parsed-Members, parsed_extension, memory, memory_lem, parse_raw_packet-memory, read_csrc,
  read_payload, read_extension,
}

-- What a receiver reads of a packet that was built from `a`.
pub record Reads (a : BuildArgs) (q : RtpPacket) : Type 0 where
  pub marker : q.hasmarker ≡ a.gotmarker
  pub payloadtype : q.payloadtype ≡ a.payloadtype
  pub seqnr : get_sequence_number q ≡ a.seqnr
  pub timestamp : q.timestamp ≡ a.timestamp
  pub ssrc : q.ssrc ≡ a.ssrc
  pub count : q.numcsrcs ≡ a.numcsrcs
  pub csrc : (i : ℕ) → i < a.numcsrcs → get_csrc q i ≡ ok (get_or a.csrcs i 0)
  pub payload : payload_bytes q ≡ ok a.payloaddata
  pub has_extension : q.hasextension ≡ a.gotextension
  pub extension :
      a.gotextension ≡ true
      → (q.extid ≡ a.extensionid)
        × (extension_bytes q ≡ some (bytes_at a.extensiondata 0 (4 * a.extensionlen_numwords)))

get_sequence_number-parsed :
    (a : BuildArgs) (bytes : List ℕ) → InRange a → get_sequence_number (parsed a bytes) ≡ a.seqnr
unfolding get_sequence_number
get_sequence_number-parsed a bytes r = rw (parsed-Members a bytes).seqnr (omega arith)

-- A packet that BuildPacket made of arguments within their types, of less than 2^31 bytes and
-- received as RTP data, is accepted by ParseRawPacket, and the receiver reads every field, every
-- CSRC, the payload and the extension data that went in.
pub parse_raw_packet-build_packet :
    (a : BuildArgs) (target : Target) (maxsize : ℕ) {p : RtpPacket}
    → build_packet a target maxsize ≡ ok p
    → InRange a
    → length p.packet < 2 ^ 31
    → (q : RtpPacket) × (parse_raw_packet (raw_packet p.packet true) ≡ ok q) × Reads a q
parse_raw_packet-build_packet a target maxsize e r h =
    let b = build_packet-Built a target maxsize e in
    let m = parsed-Members a (memory a b r) in
    let small : length (memory a b r) < 2 ^ 31 = rw (memory_lem a b r) at h in
    (
      parsed a (memory a b r),
      ap (λ bytes. parse_raw_packet (raw_packet bytes true)) (memory_lem a b r)
          ∙ parse_raw_packet-memory a b r small,
      record {
        marker = m.has_marker;
        payloadtype = m.ptype;
        seqnr = get_sequence_number-parsed a (memory a b r) r;
        timestamp = m.timestamp;
        ssrc = m.ssrc;
        count = m.count;
        csrc = read_csrc a b r;
        payload = read_payload a b r;
        has_extension = m.has_extension;
        extension = λ g. ((parsed_extension a (memory a b r) g).0, read_extension a b r g);
      },
    )
