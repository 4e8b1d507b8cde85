-- ===== src/Rtp/Packet/RoundTrip/Memory.antt =====
-- ParseRawPacket over the whole memory that BuildPacket wrote.
use jrtplib.Prelude.{
  ℕ, ◌+◌, ◌*◌, ◌^◌, ◌<◌, ◌≡◌, refl, sym, ap, ◌∙◌, true, false, List, [], ◌++◌, ◌==◌, none, some,
  length, get_or, ok, arith, length-append, le→ltb, lt→leb,
}
use mathlib.Core.List.{append_assoc, append-nil}
use jrtplib.Bytes.{byte_at, bytes_at, put_u16, u32_at-append, bytes_at-append, length-put_u16}
use jrtplib.Rtp.RawPacket.{raw_packet}
use jrtplib.Rtp.Packet.{RtpPacket, get_csrc, payload_bytes, extension_bytes}
use jrtplib.Rtp.Packet.Parse.{
  extension_header, extension_size, payload_room, fill_members, fill_extension, parse_body,
  parse_header, parse_raw_packet, pad_count, header_padding, header_version, looks_like_rtcp,
  header_extension, header_csrccount, header_marker, header_payloadtype,
}
use jrtplib.Rtp.Packet.Build.{BuildArgs, header_bytes}
use jrtplib.Rtp.Packet.Layout.{
  InRange, first_byte, second_byte, first_byte_fields, second_byte_fields, length-header_bytes,
  header_byte_0, header_byte_1, header_seqnr, header_timestamp, header_ssrc, length-csrc_bytes,
  u32_at-csrc_bytes,
}
use jrtplib.Rtp.Packet.RoundTrip.Inversion.{
  Built, expected_extension, Extended, ext-Extended, length-bytes_at, length-ext,
  extension_header-ext,
}

header_checked :
    (bytes : List ℕ) (b0 b1 : ℕ)
    → byte_at bytes 0 ≡ ok b0
    → byte_at bytes 1 ≡ ok b1
    → (header_version b0 == 2) ≡ true
    → looks_like_rtcp b1 ≡ false
    → parse_header bytes ≡ parse_body bytes b0 b1
unfolding parse_header
header_checked bytes b0 b1 e0 e1 ev er = rw (e0, e1, ev, er) refl

-- The packet that ParseRawPacket gives for the memory that BuildPacket wrote.
pub parsed : BuildArgs → List ℕ → RtpPacket
parsed a bytes =
    let ext = expected_extension a in
    let offset = 12 + a.numcsrcs * 4 in
    fill_extension
      (record {
        hasextension = false;
        hasmarker = a.gotmarker;
        numcsrcs = a.numcsrcs;
        payloadtype = a.payloadtype;
        extseqnr = a.seqnr;
        timestamp = a.timestamp;
        ssrc = a.ssrc;
        packet = bytes;
        payload = offset + extension_size ext;
        payloadlength = length a.payloaddata;
        extid = 0;
        extension = none;
        extensionlength = 0;
        externalbuffer = false;
      })
      offset ext

-- Which members the extension header does not touch, and which it sets.
pub record Members (a : BuildArgs) (bytes : List ℕ) (q : RtpPacket) : Type 0 where
  pub has_extension : q.hasextension ≡ a.gotextension
  pub has_marker : q.hasmarker ≡ a.gotmarker
  pub count : q.numcsrcs ≡ a.numcsrcs
  pub ptype : q.payloadtype ≡ a.payloadtype
  pub seqnr : q.extseqnr ≡ a.seqnr
  pub timestamp : q.timestamp ≡ a.timestamp
  pub ssrc : q.ssrc ≡ a.ssrc
  pub bytes_kept : q.packet ≡ bytes
  pub payload_at : q.payload ≡ 12 + a.numcsrcs * 4 + extension_size (expected_extension a)
  pub payload_size : q.payloadlength ≡ length a.payloaddata

pub parsed-Members : (a : BuildArgs) (bytes : List ℕ) → Members a bytes (parsed a bytes)
unfolding parsed fill_extension
parsed-Members a bytes = ground arith

pub parsed_extension :
    (a : BuildArgs) (bytes : List ℕ)
    → a.gotextension ≡ true
    → ((parsed a bytes).extid ≡ a.extensionid)
      × ((parsed a bytes).extension ≡ some (12 + a.numcsrcs * 4 + 4))
      × ((parsed a bytes).extensionlength ≡ a.extensionlen_numwords * 4)
unfolding parsed fill_extension
parsed_extension a bytes g = ground arith

module _ (a : BuildArgs) {p : RtpPacket} (b : Built a p) (r : InRange a) where
  after_header : List ℕ
  after_header = b.csrcs ++ (b.ext ++ a.payloaddata)

  pub memory : List ℕ
  unfolding after_header
  memory = header_bytes a ++ after_header

  length-memory :
      length memory
      ≡ 12 + (4 * a.numcsrcs + (extension_size (expected_extension a) + length a.payloaddata))
  unfolding memory
  length-memory = omega (
    arith,
    length-header_bytes a,
    length-append (header_bytes a) (b.csrcs ++ (b.ext ++ a.payloaddata)),
    length-append b.csrcs (b.ext ++ a.payloaddata),
    length-append b.ext a.payloaddata,
    length-csrc_bytes a.numcsrcs a.csrcs b.csrcs b.csrcs_written,
    length-ext a b.ext b.ext_written,
  )

  -- Where the CSRC list ends.
  before_ext : length (header_bytes a ++ b.csrcs) ≡ 12 + a.numcsrcs * 4
  before_ext = omega (
    arith,
    length-header_bytes a,
    length-append (header_bytes a) b.csrcs,
    length-csrc_bytes a.numcsrcs a.csrcs b.csrcs b.csrcs_written,
  )

  memory_parts : memory ≡ (header_bytes a ++ b.csrcs) ++ (b.ext ++ a.payloaddata)
  unfolding memory after_header
  memory_parts = sym (append_assoc (header_bytes a) b.csrcs (b.ext ++ a.payloaddata))

  extension_header-memory :
      extension_header memory (12 + a.numcsrcs * 4) a.gotextension ≡ ok (expected_extension a)
  extension_header-memory = rw memory_parts (
      extension_header-ext a (header_bytes a ++ b.csrcs) b.ext a.payloaddata _ r b.ext_written
        (sym before_ext))

  room-memory :
      length memory < 2 ^ 31
      → payload_room (length memory) 0 (12 + a.numcsrcs * 4 + extension_size (expected_extension a))
        ≡ length a.payloaddata
  room-memory h = omega (arith, length-memory)

  fill_members-memory :
      (b0 b1 : ℕ)
      → header_csrccount b0 ≡ a.numcsrcs
      → header_marker b1 ≡ a.gotmarker
      → header_payloadtype b1 ≡ a.payloadtype
      → fill_members memory b0 b1
          (12 + a.numcsrcs * 4)
          (expected_extension a)
          (length a.payloaddata)
        ≡ ok (parsed a memory)
  unfolding fill_members parsed memory
  fill_members-memory b0 b1 ec em et =
      rw
        (
          header_seqnr a after_header r,
          header_timestamp a after_header r,
          header_ssrc a after_header r,
          ec,
          em,
          et,
        )
        refl

  parse_body-memory :
      (b0 b1 : ℕ)
      → header_padding b0 ≡ false
      → header_extension b0 ≡ a.gotextension
      → header_csrccount b0 ≡ a.numcsrcs
      → header_marker b1 ≡ a.gotmarker
      → header_payloadtype b1 ≡ a.payloadtype
      → length memory < 2 ^ 31
      → parse_body memory b0 b1 ≡ ok (parsed a memory)
  unfolding parse_body pad_count
  parse_body-memory b0 b1 ep ee ec em et h =
      rw
        (
          ep,
          ee,
          ec,
          extension_header-memory,
          room-memory h,
          lt→leb (2 ^ 31) (length a.payloaddata) (omega (arith, length-memory)),
        )
        (fill_members-memory b0 b1 ec em et)

  parse_header-memory : length memory < 2 ^ 31 → parse_header memory ≡ ok (parsed a memory)
  unfolding memory
  parse_header-memory h =
      let (version, padding, extension, count) = first_byte_fields a b.few in
      let (marker, ptype, plain) = second_byte_fields a b.type_small b.not_sr b.not_rr in
      header_checked memory (first_byte a) (second_byte a) (header_byte_0 a after_header)
        (header_byte_1 a after_header) version plain
      ∙ parse_body-memory _ _ padding extension count marker ptype h

  pub read_csrc : (i : ℕ) → i < a.numcsrcs → get_csrc (parsed a memory) i ≡ ok (get_or a.csrcs i 0)
  unfolding get_csrc memory after_header
  read_csrc i h =
      let m = parsed-Members a memory in
      rw
        (
          m.count,
          lt→leb a.numcsrcs i h,
          m.bytes_kept,
          u32_at-append (header_bytes a) after_header (i * 4) (12 + i * 4)
              (omega (arith, length-header_bytes a)),
        )
        (u32_at-csrc_bytes a.numcsrcs a.csrcs b.csrcs (b.ext ++ a.payloaddata) i b.csrcs_written
          r.csrcs h)

  payload_parts : memory ≡ ((header_bytes a ++ b.csrcs) ++ b.ext) ++ (a.payloaddata ++ [])
  payload_parts = simp (memory_parts, append_assoc, append-nil)

  pub read_payload : payload_bytes (parsed a memory) ≡ ok a.payloaddata
  unfolding payload_bytes
  read_payload =
      let m = parsed-Members a memory in
      let front = (header_bytes a ++ b.csrcs) ++ b.ext in
      rw (m.bytes_kept, m.payload_at, m.payload_size, payload_parts)
        (bytes_at-append front a.payloaddata [] _ _
          (omega (
            arith,
            length-append (header_bytes a ++ b.csrcs) b.ext,
            before_ext,
            length-ext a b.ext b.ext_written,
          ))
          refl)

  body_parts :
      (x : Extended a b.ext)
      → memory
        ≡ ((header_bytes a ++ b.csrcs)
            ++ (put_u16 a.extensionid ++ put_u16 a.extensionlen_numwords))
          ++ (x.body ++ a.payloaddata)
  body_parts x = simp (memory_parts, x.parts, append_assoc)

  pub read_extension :
      a.gotextension ≡ true
      → extension_bytes (parsed a memory)
        ≡ some (bytes_at a.extensiondata 0 (4 * a.extensionlen_numwords))
  unfolding extension_bytes
  read_extension g =
      let x = ext-Extended a b.ext g b.ext_written in
      let m = parsed-Members a memory in
      let (eid, eat, elen) = parsed_extension a memory g in
      rw (eat, elen, m.bytes_kept, x.copied, body_parts x)
        (ap some (
          bytes_at-append _ x.body a.payloaddata _ _
            (omega (
              arith,
              length-append (header_bytes a ++ b.csrcs)
                  (put_u16 a.extensionid ++ put_u16 a.extensionlen_numwords),
              length-append (put_u16 a.extensionid) (put_u16 a.extensionlen_numwords),
              length-put_u16 a.extensionid,
              length-put_u16 a.extensionlen_numwords,
              before_ext,
            ))
            (omega
              (arith, length-bytes_at a.extensiondata 0 (4 * a.extensionlen_numwords) x.copied))))

  pub memory_lem : p.packet ≡ memory
  unfolding memory after_header
  memory_lem = b.memory

  pub parse_raw_packet-memory :
      length memory < 2 ^ 31 → parse_raw_packet (raw_packet memory true) ≡ ok (parsed a memory)
  unfolding parse_raw_packet
  parse_raw_packet-memory h =
      rw (le→ltb (length memory) 12 (omega (arith, length-memory))) (parse_header-memory h)
