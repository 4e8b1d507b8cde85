-- ===== src/Rtp/Packet/Overread.antt =====
-- ParseRawPacket and packets that end before their extension header.
use jrtplib.Prelude.{
  ℕ, ◌+◌, ◌-◌, ◌*◌, ◌≤◌, ◌<◌, ◌≡◌, refl, sym, ap, ◌∙◌, ==_iff, ok-injective, ltb→lt, ltb→le, Bool,
  true, false, List, ◌∷◌, ◌≢◌, ◌==◌, ◌⊎◌, ◌↔◌, Option, none, some, length, ltb, ok, err, fault,
  arith, Bool-cases, inl, inr, packet_invalidpacket,
}
use jrtplib.Bytes.{byte_at, u32_at-lt, u16_at-lt, byte_at-lt, u16_at-ge}
use jrtplib.Rtp.RawPacket.{raw_packet}
use jrtplib.Rtp.Packet.Parse.{
  extension_header, extension_size, payload_room, fill_members, parse_body, parse_header,
  parse_raw_packet, pad_count, header_version, header_padding, header_extension, header_csrccount,
  looks_like_rtcp,
}

-- The padding bit is clear, or the last byte is no zero.
abbrev pub PadIsCounted : List ℕ → ℕ → Type 0
PadIsCounted bytes b0 = (header_padding b0 ≡ false) ⊎ (byte_at bytes (length bytes - 1) ≢ ok 0)

padded_cases :
    (bytes : List ℕ) (b0 n : ℕ)
    → header_padding b0 ≡ true
    → byte_at bytes (length bytes - 1) ≡ ok n
    → (z : Bool) → (n == 0) ≡ z
    → ((pad_count bytes b0 ≡ err packet_invalidpacket) × ¬ PadIsCounted bytes b0)
      ⊎ ((m : ℕ) × (pad_count bytes b0 ≡ ok m) × PadIsCounted bytes b0)
unfolding pad_count
padded_cases bytes b0 n padded en true z = inl (
  rw (padded, en, z) refl,
  λ c. elim c [
    | inl plain ↦ cc (padded, plain)
    | inr counted ↦ counted (en ∙ ap ok ((==_iff n 0).0 z))
  ],
)
padded_cases bytes b0 n padded en false z =
    inr (n, rw (padded, en, z) refl, inr (λ e. ground (arith, ok-injective (sym en ∙ e))))

pad_cases :
    (bytes : List ℕ) (b0 : ℕ)
    → 0 < length bytes
    → ((pad_count bytes b0 ≡ err packet_invalidpacket) × ¬ PadIsCounted bytes b0)
      ⊎ ((n : ℕ) × (pad_count bytes b0 ≡ ok n) × PadIsCounted bytes b0)
unfolding pad_count
pad_cases bytes b0 h =
    let (n, en) = byte_at-lt bytes (length bytes - 1) (omega arith) in
    elim (Bool-cases (header_padding b0)) [
      | inr plain ↦ inr (0, rw plain refl, inl plain)
      | inl padded ↦ padded_cases bytes b0 n padded en (n == 0) refl
    ]

fill_members_total :
    (bytes : List ℕ) (b0 b1 offset : ℕ) (ext : Option (ℕ × ℕ)) (room : ℕ)
    → 12 ≤ length bytes
    → fill_members bytes b0 b1 offset ext room ≢ fault
unfolding fill_members
fill_members_total bytes b0 b1 offset ext room h =
    let (seqnr, e0) = u16_at-lt bytes 2 (omega arith) in
    let (timestamp, e1) = u32_at-lt bytes 4 (omega arith) in
    let (ssrc, e2) = u32_at-lt bytes 8 (omega arith) in rw (e0, e1, e2) (λ e. cc)

-- The extension header's length field is read where the packet holds it, and not otherwise.
extension_short :
    (bytes : List ℕ) (at : ℕ) → length bytes < at + 4 → extension_header bytes at true ≡ fault
unfolding extension_header
extension_short bytes at h = rw (u16_at-ge bytes (at + 2) (omega arith)) refl

extension_total :
    (bytes : List ℕ) (at : ℕ) (present : Bool)
    → (present ≡ true → at + 4 ≤ length bytes)
    → (ext : Option (ℕ × ℕ)) × (extension_header bytes at present ≡ ok ext)
unfolding extension_header
extension_total bytes at false h = (none, refl)
extension_total bytes at true h =
    let inside = h refl in
    let (words, ew) = u16_at-lt bytes (at + 2) (omega arith) in
    let (id, ei) = u16_at-lt bytes at (omega arith) in (some (id, words), rw (ew, ei) refl)

-- The condition under which the read leaves the packet.
pub record EndsBeforeExtension (b0 b1 : ℕ) (rest : List ℕ) : Type 0 where
  pub version : header_version b0 ≡ 2
  pub plain : looks_like_rtcp b1 ≡ false
  pub padding : PadIsCounted (b0 ∷ b1 ∷ rest) b0
  pub extended : header_extension b0 ≡ true
  pub short : length (b0 ∷ b1 ∷ rest) < 12 + header_csrccount b0 * 4 + 4

module _ (b0 b1 : ℕ) (rest : List ℕ) (long : 12 ≤ length (b0 ∷ b1 ∷ rest)) where
  body_faults :
      PadIsCounted (b0 ∷ b1 ∷ rest) b0
      → header_extension b0 ≡ true
      → length (b0 ∷ b1 ∷ rest) < 12 + header_csrccount b0 * 4 + 4
      → parse_body (b0 ∷ b1 ∷ rest) b0 b1 ≡ fault
  unfolding parse_body
  body_faults counted extended short = elim (pad_cases (b0 ∷ b1 ∷ rest) b0 (omega arith)) [
    | inl (e, bad) ↦ absurd (bad counted)
    | inr (n, e, _) ↦
        rw (e, extended, extension_short (b0 ∷ b1 ∷ rest) (12 + header_csrccount b0 * 4) short) refl
  ]

  -- Where the length field is in the packet, or there is no extension, no read faults.
  body_safe :
      (header_extension b0 ≡ true → 12 + header_csrccount b0 * 4 + 4 ≤ length (b0 ∷ b1 ∷ rest))
      → parse_body (b0 ∷ b1 ∷ rest) b0 b1 ≢ fault
  unfolding parse_body
  body_safe inside f = elim (pad_cases (b0 ∷ b1 ∷ rest) b0 (omega arith)) [
    | inl (e, bad) ↦ cc (rw e at f)
    | inr (n, e, counted) ↦
        let offset = 12 + header_csrccount b0 * 4 in
        let (ext, ee) = extension_total (b0 ∷ b1 ∷ rest) offset (header_extension b0) inside in
        let room = payload_room (length (b0 ∷ b1 ∷ rest)) n (offset + extension_size ext) in
        let total = fill_members_total (b0 ∷ b1 ∷ rest) b0 b1 offset ext room long in
        ground (arith, rw (e, ee) at f, total)
  ]

  body_bad_padding :
      pad_count (b0 ∷ b1 ∷ rest) b0 ≡ err packet_invalidpacket
      → parse_body (b0 ∷ b1 ∷ rest) b0 b1 ≢ fault
  unfolding parse_body
  body_bad_padding e f = cc (rw e at f)

  body_only_if :
      parse_body (b0 ∷ b1 ∷ rest) b0 b1 ≡ fault
      → PadIsCounted (b0 ∷ b1 ∷ rest) b0
        × (header_extension b0 ≡ true)
        × (length (b0 ∷ b1 ∷ rest) < 12 + header_csrccount b0 * 4 + 4)
  body_only_if f = elim (pad_cases (b0 ∷ b1 ∷ rest) b0 (omega arith)) [
    | inl (e, bad) ↦ absurd (body_bad_padding e f)
    | inr (n, e, counted) ↦ elim (Bool-cases (header_extension b0)) [
      | inr without ↦ absurd (body_safe (λ t. cc (t, without)) f)
      | inl extended ↦ (
        counted,
        extended,
        elim (Bool-cases (ltb (length (b0 ∷ b1 ∷ rest)) (12 + header_csrccount b0 * 4 + 4))) [
          | inl short ↦ ltb→lt _ _ short
          | inr held ↦ absurd (body_safe (λ _. ltb→le _ _ held) f)
        ],
      )
    ]
  ]

header_fault :
    (b0 b1 : ℕ) (rest : List ℕ)
    → parse_raw_packet (raw_packet (b0 ∷ b1 ∷ rest) true) ≡ fault
    → (header_version b0 ≡ 2)
      × (looks_like_rtcp b1 ≡ false)
      × (parse_body (b0 ∷ b1 ∷ rest) b0 b1 ≡ fault)
unfolding parse_raw_packet parse_header byte_at
header_fault b0 b1 rest f = ground arith

fault_header :
    (b0 b1 : ℕ) (rest : List ℕ)
    → 12 ≤ length (b0 ∷ b1 ∷ rest)
    → header_version b0 ≡ 2
    → looks_like_rtcp b1 ≡ false
    → parse_body (b0 ∷ b1 ∷ rest) b0 b1 ≡ fault
    → parse_raw_packet (raw_packet (b0 ∷ b1 ∷ rest) true) ≡ fault
unfolding parse_raw_packet parse_header byte_at
fault_header b0 b1 rest long ev er f = ground arith

-- Of 12 bytes or more received as RTP data, ParseRawPacket reads past the end exactly if the
-- version is 2, marker and type are not those of an SR or RR, the padding (if announced) is not
-- zero, the extension bit is set, and the packet ends before the four bytes of the extension header.
pub parse_raw_packet_overreads :
    (b0 b1 : ℕ) (rest : List ℕ)
    → 12 ≤ length (b0 ∷ b1 ∷ rest)
    → (parse_raw_packet (raw_packet (b0 ∷ b1 ∷ rest) true) ≡ fault) ↔ EndsBeforeExtension b0 b1 rest
parse_raw_packet_overreads b0 b1 rest long = (
  λ f.
      let (version, plain, body) = header_fault b0 b1 rest f in
      let (counted, extended, short) = body_only_if b0 b1 rest long body in
      record {
        version = version;
        plain = plain;
        padding = counted;
        extended = extended;
        short = short;
      },
  λ x.
      fault_header b0 b1 rest long x.version x.plain
        (body_faults b0 b1 rest long x.padding x.extended x.short),
)
