-- ===== src/Rtcp/Packet/Reads.antt =====
-- The padding of an RTCP packet, and which packets the constructors know.
use jrtplib.Prelude.{
  ℕ, ◌+◌, ◌-◌, ◌*◌, ◌%◌, ◌≤◌, ◌<◌, ◌≡◌, ◌↔◌, ◌⊎◌, inl, inr, refl, sym, subst, ==_iff, ◌∙◌, true,
  false, List, Option, none, some, length, leb, ◌==◌, arith, Bool-cases, ok, ok-injective,
}
use jrtplib.Bytes.{byte_at, byte_at-lt}
use jrtplib.Rtcp.Packet.{rtcp_count, rtcp_padding, strip_padding, without_padding, report_known}

-- `len` bytes are left of a packet with this first byte once its padding is taken off: all, or all
-- but the number that the last byte gives, a multiple of four (RFC 3550, section 6.4.1).
abbrev pub Unpadded : List ℕ → ℕ → ℕ → Type 0
Unpadded bytes b0 len =
    ((rtcp_padding b0 ≡ false) × (len ≡ length bytes))
    ⊎ ((rtcp_padding b0 ≡ true)
        × ((padcount : ℕ) × (byte_at bytes (length bytes - 1) ≡ ok padcount)
            × (padcount % 4 ≡ 0)
            × (len + padcount ≡ length bytes)
            × (0 < len)))

unfoldable pub StripMeans : List ℕ → ℕ → Option ℕ → Type 0
StripMeans bytes b0 none = (len : ℕ) → ¬ Unpadded bytes b0 len
StripMeans bytes b0 (some len) = Unpadded bytes b0 len

-- What a packet with the padding bit and a description of its padding have in common.
padding_count :
    (bytes : List ℕ) (b0 pad len : ℕ)
    → rtcp_padding b0 ≡ true
    → byte_at bytes (length bytes - 1) ≡ ok pad
    → Unpadded bytes b0 len
    → (pad % 4 ≡ 0) × (pad < length bytes)
padding_count bytes b0 pad len e ep (inl u) = cc
padding_count bytes b0 pad len e ep (inr (e', (pad', ep', m, s, z))) =
    let same : pad' ≡ pad = ok-injective (sym ep' ∙ ep) in
    (omega (arith, same), omega (arith, same))

padded-StripMeans :
    (bytes : List ℕ) (b0 pad : ℕ)
    → rtcp_padding b0 ≡ true
    → byte_at bytes (length bytes - 1) ≡ ok pad
    → StripMeans bytes b0 (without_padding (length bytes) pad)
unfolding StripMeans
padded-StripMeans bytes b0 pad e ep = elim (Bool-cases (pad % 4 == 0)) [
  | inr odd ↦
      rw (odd, StripMeans)
        (λ len u. let (m, s) = padding_count bytes b0 pad len e ep u in ground arith)
  | inl mult ↦ elim (Bool-cases (leb (length bytes) pad)) [
    | inl big ↦
        rw (mult, big, StripMeans)
          (λ len u. let (m, s) = padding_count bytes b0 pad len e ep u in ground arith)
    | inr small ↦
        rw (mult, small, StripMeans) (inr (e, (pad, ep, ground arith, ground arith, ground arith)))
  ]
]

pub strip_padding-StripMeans :
    (bytes : List ℕ) (b0 : ℕ)
    → 0 < length bytes
    → (o : Option ℕ) × (strip_padding bytes b0 ≡ ok o) × StripMeans bytes b0 o
unfolding strip_padding
strip_padding-StripMeans bytes b0 h = elim (Bool-cases (rtcp_padding b0)) [
  | inr e ↦ (some (length bytes), rw e refl, unfold StripMeans in inl (e, refl))
  | inl e ↦
      let (pad, ep) = byte_at-lt bytes (length bytes - 1) (omega arith) in
      (without_padding (length bytes) pad, rw (e, ep) refl, padded-StripMeans bytes b0 pad e ep)
]

pub Unpadded-le : (bytes : List ℕ) (b0 len : ℕ) → Unpadded bytes b0 len → len ≤ length bytes
Unpadded-le bytes b0 len (inl u) = omega (arith, u.1)
Unpadded-le bytes b0 len (inr (e, (pad, ep, m, s, z))) = omega arith

pub Unpadded-unique :
    (bytes : List ℕ) (b0 len len' : ℕ) → Unpadded bytes b0 len → Unpadded bytes b0 len' → len ≡ len'
Unpadded-unique bytes b0 len len' (inl u) (inl v) = omega (arith, u.1, v.1)
Unpadded-unique bytes b0 len len' (inl u) (inr v) = cc
Unpadded-unique bytes b0 len len' (inr u) (inl v) = cc
Unpadded-unique bytes b0 len len' (inr (e, (pad, ep, m, s, z)))
      (inr (e', (pad', ep', m', s', z'))) =
    let same : pad' ≡ pad = ok-injective (sym ep' ∙ ep) in omega (arith, same)

-- The report formats: the packet without its padding is exactly the headers and `count` blocks.
pub known_report :
    (bytes : List ℕ) (b0 base : ℕ) (o : Option ℕ)
    → StripMeans bytes b0 o
    → report_known base (rtcp_count b0) o ≡ true ↔ Unpadded bytes b0 (base + 24 * rtcp_count b0)
unfolding StripMeans
known_report bytes b0 base none m = (λ e. cc, λ u. absurd (m _ u))
known_report bytes b0 base (some len) m =
    let size : ℕ = base + 24 * rtcp_count b0 in
    (
      λ e. subst (Unpadded bytes b0) (sym ((==_iff size len).0 e)) m,
      λ u. (==_iff size len).1 (Unpadded-unique bytes b0 size len u m),
    )
