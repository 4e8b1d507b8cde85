-- ===== src/Rtp/Packet/RoundTrip/Inversion.antt =====
-- What BuildPacket leaves behind: its inversion, and the extension part of the memory.
use jrtplib.Prelude.{
  ◌≤◌, ◌<◌, ◌+◌, ℕ, ◌+◌, ◌*◌, ◌≤◌, ◌≡◌, refl, sym, ap, true, false, List, [], ◌++◌, ◌≢◌, Option,
  none, some, length, drop, ok, arith, length-append, length-take, length-drop, Bool-cases, inl,
  inr, >>=-eq-ok, ok-injective, if◌then◌else◌,
}
use mathlib.Core.List.{append_assoc}
use jrtplib.Bytes.{bytes_at, put_u16, u16_at-append, u16_at-put_u16, length-put_u16}
use jrtplib.Rtp.Packet.{RtpPacket}
use jrtplib.Rtp.Packet.Parse.{extension_header, extension_size}
use jrtplib.Rtp.Packet.Build.{
  BuildArgs, Target, header_bytes, csrc_bytes, fill_packet, build_packet, packet_length,
  packet_length,
}
use jrtplib.Rtp.Packet.Build
use jrtplib.Rtp.Packet.Layout.{length-header_bytes, length-csrc_bytes, InRange}

-- What a successful BuildPacket has checked and written.
pub record Built (a : BuildArgs) (p : RtpPacket) : Type 0 where
  pub few : a.numcsrcs ≤ 15
  pub type_small : a.payloadtype ≤ 127
  pub not_sr : a.payloadtype ≢ 72
  pub not_rr : a.payloadtype ≢ 73
  pub csrcs : List ℕ
  pub ext : List ℕ
  pub csrcs_written : csrc_bytes a.numcsrcs a.csrcs ≡ ok csrcs
  pub ext_written : Build.extension_bytes a ≡ ok ext
  pub memory : p.packet ≡ header_bytes a ++ (csrcs ++ (ext ++ a.payloaddata))

build_fills :
    (a : BuildArgs) (target : Target) (maxsize : ℕ) {p : RtpPacket}
    → build_packet a target maxsize ≡ ok p
    → (a.numcsrcs ≤ 15)
      × (a.payloadtype ≤ 127)
      × (a.payloadtype ≢ 72)
      × (a.payloadtype ≢ 73)
      × (fill_packet a target ≡ ok p)
unfolding build_packet
build_fills a target maxsize e = ground arith

pub build_packet-Built :
    (a : BuildArgs) (target : Target) (maxsize : ℕ) {p : RtpPacket}
    → build_packet a target maxsize ≡ ok p
    → Built a p
build_packet-Built a target maxsize e =
    let (few, small, n2, n3, filled) = build_fills a target maxsize e in
    unfold fill_packet in
    (let (cs, ecs, e1) = >>=-eq-ok (csrc_bytes a.numcsrcs a.csrcs) _ filled in
      let (ext, eext, e2) = >>=-eq-ok (Build.extension_bytes a) _ e1 in
      record {
        few = few;
        type_small = small;
        not_sr = n2;
        not_rr = n3;
        csrcs = cs;
        ext = ext;
        csrcs_written = ecs;
        ext_written = eext;
        memory = ap (λ r. r.packet) (sym (ok-injective e2));
      })

-- What ParseRawPacket finds as the extension header.
abbrev pub expected_extension : BuildArgs → Option (ℕ × ℕ)
expected_extension a =
    if a.gotextension then some (a.extensionid, a.extensionlen_numwords) else none

-- The extension part: its header and its data.
pub record Extended (a : BuildArgs) (ext : List ℕ) : Type 0 where
  pub body : List ℕ
  pub copied : bytes_at a.extensiondata 0 (4 * a.extensionlen_numwords) ≡ ok body
  pub parts : ext ≡ put_u16 a.extensionid ++ (put_u16 a.extensionlen_numwords ++ body)

pub ext-Extended :
    (a : BuildArgs) (ext : List ℕ)
    → a.gotextension ≡ true
    → Build.extension_bytes a ≡ ok ext
    → Extended a ext
unfolding Build.extension_bytes
ext-Extended a ext g e =
    let (body, eb, ee) =
      >>=-eq-ok (bytes_at a.extensiondata 0 (4 * a.extensionlen_numwords)) _ (rw g at e) in
    record { body = body; copied = eb; parts = sym (ok-injective ee) }

ext_absent :
    (a : BuildArgs) (ext : List ℕ)
    → a.gotextension ≡ false
    → Build.extension_bytes a ≡ ok ext
    → ext ≡ []
unfolding Build.extension_bytes
ext_absent a ext g e = sym (ok-injective (rw g at e))

-- A copy has the length that was asked for.
pub length-bytes_at :
    (mem : List ℕ) (i n : ℕ) {bs : List ℕ} → bytes_at mem i n ≡ ok bs → length bs ≡ n
unfolding bytes_at
length-bytes_at mem i n {bs} e = ground (arith, length-take n (drop i mem), length-drop i mem)

pub length-ext :
    (a : BuildArgs) (ext : List ℕ)
    → Build.extension_bytes a ≡ ok ext
    → length ext ≡ extension_size (expected_extension a)
length-ext a ext e = elim (Bool-cases a.gotextension) [
  | inl g ↦
      let x = ext-Extended a ext g e in
      rw (g, x.parts)
        (omega (
          arith,
          length-append (put_u16 a.extensionid) (put_u16 a.extensionlen_numwords ++ x.body),
          length-append (put_u16 a.extensionlen_numwords) x.body,
          length-put_u16 a.extensionid,
          length-put_u16 a.extensionlen_numwords,
          length-bytes_at a.extensiondata 0 (4 * a.extensionlen_numwords) x.copied,
        ))
  | inr g ↦ rw (g, ext_absent a ext g e) refl
]

ext_parts :
    (a : BuildArgs) (ext after : List ℕ) (x : Extended a ext)
    → ext ++ after ≡ put_u16 a.extensionid ++ (put_u16 a.extensionlen_numwords ++ (x.body ++ after))
ext_parts a ext after x = rw x.parts (simp append_assoc)

-- The extension header is read back, wherever it stands.
pub extension_header-ext :
    (a : BuildArgs) (before ext after : List ℕ) (at : ℕ)
    → InRange a
    → Build.extension_bytes a ≡ ok ext
    → at ≡ length before
    → extension_header (before ++ (ext ++ after)) at a.gotextension ≡ ok (expected_extension a)
unfolding extension_header
extension_header-ext a before ext after at r e h = elim (Bool-cases a.gotextension) [
  | inl g ↦
      let x = ext-Extended a ext g e in
      let tail = x.body ++ after in
      let words = put_u16 a.extensionlen_numwords ++ tail in
      rw (g, ext_parts a ext after x, extension_header)
        (rw
          (
            u16_at-append before (put_u16 a.extensionid ++ words) 2 (at + 2) (omega arith),
            u16_at-append (put_u16 a.extensionid) words 0 2
                (omega (arith, length-put_u16 a.extensionid)),
            u16_at-put_u16 a.extensionlen_numwords tail r.words,
            u16_at-append before (put_u16 a.extensionid ++ words) 0 at (omega arith),
            u16_at-put_u16 a.extensionid words r.extensionid,
          )
          refl)
  | inr g ↦ rw (g, extension_header) refl
]

build_fits :
    (a : BuildArgs) (target : Target) (maxsize : ℕ) {p : RtpPacket}
    → build_packet a target maxsize ≡ ok p
    → (0 < maxsize → packet_length a ≤ maxsize)
unfolding build_packet
build_fits a target maxsize e h = ground arith

packet_length_lem :
    (a : BuildArgs)
    → packet_length a
      ≡ 12 + 4 * a.numcsrcs + extension_size (expected_extension a) + length a.payloaddata
unfolding packet_length
packet_length_lem a = ground arith

-- A packet that BuildPacket made has the length that BuildPacket computed (header, CSRCs, header
-- extension and payload), and this is no more than a maximum that is not 0.
pub build_packet_size :
    (a : BuildArgs) (target : Target) (maxsize : ℕ) {p : RtpPacket}
    → build_packet a target maxsize ≡ ok p
    → (length p.packet ≡ packet_length a) × (0 < maxsize → length p.packet ≤ maxsize)
build_packet_size a target maxsize {p} e =
    let b = build_packet-Built a target maxsize e in
    let size : length p.packet ≡ packet_length a = omega (
      arith,
      packet_length_lem a,
      ap length b.memory,
      length-header_bytes a,
      length-append (header_bytes a) (b.csrcs ++ (b.ext ++ a.payloaddata)),
      length-append b.csrcs (b.ext ++ a.payloaddata),
      length-append b.ext a.payloaddata,
      length-csrc_bytes a.numcsrcs a.csrcs b.csrcs b.csrcs_written,
      length-ext a b.ext b.ext_written,
    ) in
    (size, λ h. omega (arith, size, build_fits a target maxsize e h))
