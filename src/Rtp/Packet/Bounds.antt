-- ===== src/Rtp/Packet/Bounds.antt =====
-- Which memory ParseRawPacket reads, and which the accepted packet's members lead to.
use jrtplib.Prelude.{
  ℕ, ◌+◌, ◌-◌, ◌*◌, ◌^◌, ◌≤◌, ◌<◌, ◌≡◌, refl, sym, ap, Bool, true, false, List, ◌⊎◌, Option, none,
  some, length, take, drop, leb, ok, arith, Bool-cases, inl, inr, >>=-eq-ok, ok-injective, All,
  leb→gt, length-take, length-drop,
}
use jrtplib.Bytes.{
  IsByte, byte_at, u16_at, u32_at, byte_at-IsByte, u16_at_bound, bytes_at-le, u32_at-lt,
}
use jrtplib.Rtp.RawPacket.{raw_packet}
use jrtplib.Rtp.Packet.{RtpPacket, get_csrc, payload_bytes, extension_bytes}
use jrtplib.Rtp.Packet.Parse.{
  extension_header, extension_size, payload_room, fill_members, fill_extension, parse_body,
  parse_header, parse_raw_packet, pad_count, header_padding, header_extension, header_csrccount,
}

-- The steps of an accepting run.
record Accepted (bytes : List ℕ) (q : RtpPacket) : Type 0 where
  b0 : ℕ
  b1 : ℕ
  pad : ℕ
  ext : Option (ℕ × ℕ)
  padded : pad_count bytes b0 ≡ ok pad
  extended : extension_header bytes (12 + header_csrccount b0 * 4) (header_extension b0) ≡ ok ext
  fits :
      payload_room (length bytes) pad (12 + header_csrccount b0 * 4 + extension_size ext) < 2 ^ 31
  filled :
      fill_members bytes b0 b1
        (12 + header_csrccount b0 * 4)
        ext
        (payload_room (length bytes) pad (12 + header_csrccount b0 * 4 + extension_size ext))
      ≡ ok q

Accepted-body :
    (bytes : List ℕ) (b0 b1 : ℕ) {q : RtpPacket} → parse_body bytes b0 b1 ≡ ok q → Accepted bytes q
unfolding parse_body
Accepted-body bytes b0 b1 e =
    let (pad, ep, e1) = >>=-eq-ok (pad_count bytes b0) _ e in
    let (ext, ee, e2) =
      >>=-eq-ok (extension_header bytes (12 + header_csrccount b0 * 4) (header_extension b0)) _
        e1 in
    record {
      b0 = b0;
      b1 = b1;
      pad = pad;
      ext = ext;
      padded = ep;
      extended = ee;
      fits = ground arith;
      filled = ground arith;
    }

Accepted-header : (bytes : List ℕ) {q : RtpPacket} → parse_header bytes ≡ ok q → Accepted bytes q
unfolding parse_header
Accepted-header bytes e =
    let (b0, e0, r0) = >>=-eq-ok (byte_at bytes 0) _ e in
    let (b1, e1, r1) = >>=-eq-ok (byte_at bytes 1) _ r0 in Accepted-body bytes b0 b1 (ground arith)

accepted_raw :
    (bytes : List ℕ) {q : RtpPacket}
    → parse_raw_packet (raw_packet bytes true) ≡ ok q
    → (12 ≤ length bytes) × (parse_header bytes ≡ ok q)
unfolding parse_raw_packet
accepted_raw bytes e = ground arith

-- The members of a filled packet that lead into its memory.
record Pointers (bytes : List ℕ) (b0 offset : ℕ) (ext : Option (ℕ × ℕ)) (room : ℕ) (q : RtpPacket)
    : Type 0 where
  same : q.packet ≡ bytes
  count : q.numcsrcs ≡ header_csrccount b0
  payload_at : q.payload ≡ offset + extension_size ext
  payload_size : q.payloadlength ≡ room
  extension_at :
      ((ext ≡ none) × (q.extension ≡ none))
      ⊎ ((id : ℕ) × (words : ℕ) × (ext ≡ some (id, words))
          × (q.extension ≡ some (offset + 4))
          × (q.extensionlength ≡ words * 4))

filled-Pointers :
    (bytes : List ℕ) (b0 b1 offset : ℕ) (ext : Option (ℕ × ℕ)) (room : ℕ) {q : RtpPacket}
    → fill_members bytes b0 b1 offset ext room ≡ ok q
    → Pointers bytes b0 offset ext room q
unfolding fill_members fill_extension
filled-Pointers bytes b0 b1 offset none room e =
    let (seqnr, e0, r0) = >>=-eq-ok (u16_at bytes 2) _ e in
    let (timestamp, e1, r1) = >>=-eq-ok (u32_at bytes 4) _ r0 in
    let (ssrc, e2, r2) = >>=-eq-ok (u32_at bytes 8) _ r1 in ground arith
filled-Pointers bytes b0 b1 offset (some (id, words)) room e =
    let (seqnr, e0, r0) = >>=-eq-ok (u16_at bytes 2) _ e in
    let (timestamp, e1, r1) = >>=-eq-ok (u32_at bytes 4) _ r0 in
    let (ssrc, e2, r2) = >>=-eq-ok (u32_at bytes 8) _ r1 in
    let m = ok-injective r2 in
    record {
      same = ap (λ r. r.packet) (sym m);
      count = ap (λ r. r.numcsrcs) (sym m);
      payload_at = ap (λ r. r.payload) (sym m);
      payload_size = ap (λ r. r.payloadlength) (sym m);
      extension_at =
          inr (id, words, refl, ap (λ r. r.extension) (sym m), ap (λ r. r.extensionlength) (sym m));
    }

-- The memory that an accepted packet's members lead to, read through its accessors.
pub record WithinPacket (bytes : List ℕ) (q : RtpPacket) : Type 0 where
  pub same : q.packet ≡ bytes
  pub payload_inside : q.payload + q.payloadlength ≤ length bytes
  pub payload_read : payload_bytes q ≡ ok (take q.payloadlength (drop q.payload bytes))
  pub csrc_read : (i : ℕ) → (c : ℕ) × (get_csrc q i ≡ ok c)
  pub extension_read :
      (extension_bytes q ≡ none)
      ⊎ ((bs : List ℕ) × (extension_bytes q ≡ some (ok bs)) × (length bs ≡ q.extensionlength))

pad_count_bound :
    (bytes : List ℕ) (b0 : ℕ) {pad : ℕ} → All IsByte bytes → pad_count bytes b0 ≡ ok pad → pad < 256
unfolding pad_count
pad_count_bound bytes b0 r e = elim (Bool-cases (header_padding b0)) [
  | inl padded ↦
      let (n, en, rn) = >>=-eq-ok (byte_at bytes (length bytes - 1)) _ (rw padded at e) in
      ground (arith, byte_at-IsByte bytes (length bytes - 1) r en)
  | inr plain ↦ ground arith
]

extension_bound :
    (bytes : List ℕ) (at : ℕ) (present : Bool) {ext : Option (ℕ × ℕ)}
    → All IsByte bytes
    → extension_header bytes at present ≡ ok ext
    → extension_size ext < 2 ^ 19
unfolding extension_header
extension_bound bytes at true {ext} r e =
    let (words, ew, rw0) = >>=-eq-ok (u16_at bytes (at + 2)) _ e in
    let (id, ei, ri) = >>=-eq-ok (u16_at bytes at) _ rw0 in
    rw (sym (ok-injective ri)) (omega (arith, u16_at_bound bytes (at + 2) r ew))
extension_bound bytes at false {ext} r e = ground arith

-- The 32-bit comparison with 0 is the comparison of the true numbers.
payload_room_lem :
    (len pad off : ℕ)
    → len < 2 ^ 31
    → pad < 256
    → off < 2 ^ 20
    → payload_room len pad off < 2 ^ 31
    → off + payload_room len pad off + pad ≡ len
payload_room_lem len pad off hl hp ho h = omega arith

module _ (bytes : List ℕ) {q : RtpPacket} (r : All IsByte bytes) (a : Accepted bytes q)
    (small : length bytes < 2 ^ 31) where
  offset : ℕ
  offset = 12 + header_csrccount a.b0 * 4

  pointers :
      Pointers bytes a.b0 offset a.ext
        (payload_room (length bytes) a.pad (offset + extension_size a.ext))
        q
  unfolding offset
  pointers = filled-Pointers bytes a.b0 a.b1 _ a.ext _ a.filled

  room : offset + extension_size a.ext + q.payloadlength + a.pad ≡ length bytes
  unfolding offset
  room = rw pointers.payload_size (
      payload_room_lem (length bytes) a.pad (offset + extension_size a.ext) small
        (pad_count_bound bytes a.b0 r a.padded)
        (omega (arith, extension_bound bytes offset (header_extension a.b0) r a.extended)) a.fits)

  payload_inside : q.payload + q.payloadlength ≤ length bytes
  payload_inside = omega (arith, pointers.payload_at, room)

  payload_read : payload_bytes q ≡ ok (take q.payloadlength (drop q.payload bytes))
  unfolding payload_bytes
  payload_read = rw pointers.same (bytes_at-le bytes q.payload q.payloadlength payload_inside)

  csrc_read : (i : ℕ) → (c : ℕ) × (get_csrc q i ≡ ok c)
  unfolding get_csrc offset
  csrc_read i = elim (Bool-cases (leb q.numcsrcs i)) [
    | inl past ↦ (0, rw past refl)
    | inr listed ↦
        let (c, e) =
          u32_at-lt bytes (12 + i * 4)
            (omega (arith, leb→gt q.numcsrcs i listed, pointers.count, room)) in
        (c, rw (listed, pointers.same) e)
  ]

  extension_read :
      (extension_bytes q ≡ none)
      ⊎ ((bs : List ℕ) × (extension_bytes q ≡ some (ok bs)) × (length bs ≡ q.extensionlength))
  unfolding extension_bytes
  extension_read = elim pointers.extension_at [
    | inl (_, e) ↦ inl (rw (e, extension_bytes) refl)
    | inr (id, words, e, at, size) ↦
        let inside : offset + 4 + words * 4 ≤ length bytes =
          omega (arith, room, ap extension_size e) in
        inr (
          take (words * 4) (drop (offset + 4) bytes),
          rw (at, size, pointers.same, extension_bytes)
              (ap some (bytes_at-le bytes (offset + 4) (words * 4) inside)),
          rw size (
              omega (
                arith,
                length-take (words * 4) (drop (offset + 4) bytes),
                length-drop (offset + 4) bytes,
              )),
        )
  ]

-- Of a received RTP packet of less than 2^31 bytes that ParseRawPacket accepts, the payload lies
-- inside the packet, and the payload, every CSRC and the header extension (if there is one, all of
-- its announced length) are read without leaving the packet's memory.
pub parse_raw_packet-WithinPacket :
    (bytes : List ℕ) {q : RtpPacket}
    → All IsByte bytes
    → length bytes < 2 ^ 31
    → parse_raw_packet (raw_packet bytes true) ≡ ok q
    → WithinPacket bytes q
parse_raw_packet-WithinPacket bytes r small e =
    let a = Accepted-header bytes (accepted_raw bytes e).1 in
    record {
      same = (pointers bytes r a small).same;
      payload_inside = payload_inside bytes r a small;
      payload_read = payload_read bytes r a small;
      csrc_read = csrc_read bytes r a small;
      extension_read = extension_read bytes r a small;
    }
