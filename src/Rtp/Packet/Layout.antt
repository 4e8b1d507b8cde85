-- ===== src/Rtp/Packet/Layout.antt =====
-- The memory that BuildPacket writes, part by part, and the reads of it.
use jrtplib.Prelude.{
  ℕ, zero, suc, ◌+◌, ◌*◌, ◌%◌, ◌≤◌, ◌<◌, ◌≡◌, refl, ap, true, false, List, [], ◌∷◌, ◌++◌, ◌≢◌, ◌==◌,
  bit, length, get_or, All, ok, arith, length-append, sym, >>=-eq-ok, ok-injective,
}
use mathlib.Core.List.{append_assoc}
use jrtplib.Bytes.{byte_at, u16_at, u32_at, put_u32, u32_at-append, u32_at-put_u32, length-put_u32}
use jrtplib.Rtp.Packet.Parse.{
  header_version, header_padding, header_extension, header_csrccount, header_marker,
  header_payloadtype, looks_like_rtcp,
}
use jrtplib.Rtp.Packet.Build.{BuildArgs, header_bytes, csrc_bytes}

-- The arguments lie within their C++ types.
pub record InRange (a : BuildArgs) : Type 0 where
  pub seqnr : a.seqnr < 65536
  pub timestamp : a.timestamp < 4294967296
  pub ssrc : a.ssrc < 4294967296
  pub extensionid : a.extensionid < 65536
  pub words : a.extensionlen_numwords < 65536
  pub csrcs : All (λ c. c < 4294967296) a.csrcs

-- The first two bytes of the header.
abbrev pub first_byte : BuildArgs → ℕ
first_byte a = 2 * 64 + bit a.gotextension * 16 + a.numcsrcs % 16

abbrev pub second_byte : BuildArgs → ℕ
second_byte a = bit a.gotmarker * 128 + a.payloadtype % 128

pub first_byte_fields :
    (a : BuildArgs)
    → a.numcsrcs ≤ 15
    → ((header_version (first_byte a) == 2) ≡ true)
      × (header_padding (first_byte a) ≡ false)
      × (header_extension (first_byte a) ≡ a.gotextension)
      × (header_csrccount (first_byte a) ≡ a.numcsrcs)
first_byte_fields a h = ground arith

pub second_byte_fields :
    (a : BuildArgs)
    → a.payloadtype ≤ 127
    → a.payloadtype ≢ 72
    → a.payloadtype ≢ 73
    → (header_marker (second_byte a) ≡ a.gotmarker)
      × (header_payloadtype (second_byte a) ≡ a.payloadtype)
      × (looks_like_rtcp (second_byte a) ≡ false)
second_byte_fields a h n2 n3 = ground arith

pub length-header_bytes : (a : BuildArgs) → length (header_bytes a) ≡ 12
unfolding header_bytes
length-header_bytes a = refl

-- The fixed fields of the header, whatever follows it.
module _ (a : BuildArgs) (rest : List ℕ) where
  pub header_byte_0 : byte_at (header_bytes a ++ rest) 0 ≡ ok (first_byte a)
  unfolding header_bytes byte_at
  header_byte_0 = refl

  pub header_byte_1 : byte_at (header_bytes a ++ rest) 1 ≡ ok (second_byte a)
  unfolding header_bytes byte_at
  header_byte_1 = refl

  pub header_seqnr : InRange a → u16_at (header_bytes a ++ rest) 2 ≡ ok a.seqnr
  unfolding header_bytes u16_at
  header_seqnr r = ap ok (omega arith)

  pub header_timestamp : InRange a → u32_at (header_bytes a ++ rest) 4 ≡ ok a.timestamp
  unfolding header_bytes u32_at
  header_timestamp r = ap ok (omega arith)

  pub header_ssrc : InRange a → u32_at (header_bytes a ++ rest) 8 ≡ ok a.ssrc
  unfolding header_bytes u32_at
  header_ssrc r = ap ok (omega arith)

csrc_bytes-suc :
    (n c : ℕ) (csrcs bs : List ℕ)
    → csrc_bytes (suc n) (c ∷ csrcs) ≡ ok bs
    → (tail : List ℕ) × (csrc_bytes n csrcs ≡ ok tail) × (bs ≡ put_u32 c ++ tail)
unfolding csrc_bytes
csrc_bytes-suc n c csrcs bs e =
    let (tail, et, eb) = >>=-eq-ok (csrc_bytes n csrcs) (λ tail. ok (put_u32 c ++ tail)) e in
    (tail, et, sym (ok-injective eb))

-- The CSRC list takes four bytes an entry.
pub length-csrc_bytes : (n : ℕ) (csrcs bs : List ℕ) → csrc_bytes n csrcs ≡ ok bs → length bs ≡ 4 * n
length-csrc_bytes zero csrcs bs e = unfold csrc_bytes in ground arith
length-csrc_bytes (suc n) [] bs e = unfold csrc_bytes in cc
length-csrc_bytes (suc n) (c ∷ csrcs) bs e =
    let (tail, et, eb) = csrc_bytes-suc n c csrcs bs e in
    omega (
      arith,
      ap length eb,
      length-append (put_u32 c) tail,
      length-put_u32 c,
      length-csrc_bytes n csrcs tail et,
    )

-- Entry `i` of the list is read back from offset `4 * i`.
pub u32_at-csrc_bytes :
    (n : ℕ) (csrcs bs rest : List ℕ) (i : ℕ)
    → csrc_bytes n csrcs ≡ ok bs
    → All (λ c. c < 4294967296) csrcs
    → i < n
    → u32_at (bs ++ rest) (i * 4) ≡ ok (get_or csrcs i 0)
u32_at-csrc_bytes zero csrcs bs rest i e r h = elim h [ ]
u32_at-csrc_bytes (suc n) [] bs rest i e r h = unfold csrc_bytes in cc
u32_at-csrc_bytes (suc n) (c ∷ csrcs) bs rest zero e r h =
    let (tail, et, eb) = csrc_bytes-suc n c csrcs bs e in
    rw (eb, append_assoc (put_u32 c) tail rest) (u32_at-put_u32 c (tail ++ rest) r.0)
u32_at-csrc_bytes (suc n) (c ∷ csrcs) bs rest (suc i) e r h =
    let (tail, et, eb) = csrc_bytes-suc n c csrcs bs e in
    rw
      (
        eb,
        append_assoc (put_u32 c) tail rest,
        u32_at-append (put_u32 c) (tail ++ rest) (i * 4) (suc i * 4)
            (omega (arith, length-put_u32 c)),
      )
      (u32_at-csrc_bytes n csrcs tail rest i et r.1 (omega arith))
