-- ===== src/Rtcp/Sdes/Known.antt =====
-- Which SDES packets the constructor of RTCPSDESPacket takes.
use jrtplib.Prelude.{
  ℕ, zero, suc, ◌+◌, ◌-◌, ◌≤◌, ◌<◌, ◌≡◌, ◌↔◌, inl, inr, refl, subst, ap, Bool, true, false, List,
  [], ◌∷◌, Option, none, some, length, ltb, ◌==◌, arith, Bool-cases, ok,
}
use jrtplib.Bytes.{byte_at, byte_at-lt}
use jrtplib.Rtcp.Packet.{RtcpPacket, rtcp_count, new_packet, sdes}
use jrtplib.Rtcp.Packet.Reads.{
  Unpadded, StripMeans, strip_padding-StripMeans, Unpadded-le, Unpadded-unique,
}
use jrtplib.Rtcp.Sdes.{walk_items, walk_chunks, sdes_known, new_sdes}
use jrtplib.Rtcp.Sdes.Grammar.{
  Chunks, round4, Walked, WalkMeans, Items-end, Items-unique, walk_items-WalkMeans,
}

-- From `at` on, `n` chunks fill `len` bytes.
abbrev pub Fill : List ℕ → ℕ → ℕ → ℕ → Type 0
Fill bytes n at len = (cs : List (List ℕ)) × (length cs ≡ n) × Chunks bytes at cs (at + len)

short-Fill : (bytes : List ℕ) (n at len : ℕ) → len < 8 → ¬ Fill bytes (suc n) at len
short-Fill bytes n at len h ([], e, c) = omega arith
short-Fill bytes n at len h (ns ∷ cs, e, (size, i, fits, c)) =
    omega (arith, Items-end bytes _ ns _ i)

chunk_there :
    (bytes : List ℕ) (n at len off left : ℕ)
    → Walked bytes at 4 (len - 4) off left
    → 4 ≤ len
    → Fill bytes (suc n) at len
    → Fill bytes n (at + off) left
chunk_there bytes n at len off left w h ([], e, c) = absurd (omega arith)
chunk_there bytes n at len off left w h (ns ∷ cs, e, (size, i, fits, c)) =
    let same : size ≡ w.size =
      omega (arith, Items-unique bytes (at + 4) ns w.ns (at + size) (at + w.size) i w.items) in
    let place : at + round4 (size + 1) ≡ at + off = omega (arith, same, w.reached) in
    let end' : at + len ≡ at + off + left = omega (arith, w.left) in
    (
      cs,
      omega arith,
      subst (Chunks bytes (at + off) cs) end' (subst (λ k. Chunks bytes k cs (at + len)) place c),
    )

chunk_back :
    (bytes : List ℕ) (n at len off left : ℕ)
    → Walked bytes at 4 (len - 4) off left
    → 4 ≤ len
    → Fill bytes n (at + off) left
    → Fill bytes (suc n) at len
chunk_back bytes n at len off left w h (cs, e, c) =
    let place : at + off ≡ at + round4 (w.size + 1) = omega (arith, w.reached) in
    let end' : at + off + left ≡ at + len = omega (arith, w.left) in
    (
      w.ns ∷ cs,
      ap suc e,
      (
        w.size,
        w.items,
        omega (arith, w.left, w.reached),
        subst (λ k. Chunks bytes k cs (at + len)) place (subst (Chunks bytes (at + off) cs) end' c),
      ),
    )

no_chunk :
    (bytes : List ℕ) (n at len : ℕ)
    → WalkMeans bytes at 4 (len - 4) none
    → 4 ≤ len
    → ¬ Fill bytes (suc n) at len
unfolding WalkMeans
no_chunk bytes n at len m h ([], e, c) = absurd (omega arith)
no_chunk bytes n at len m h (ns ∷ cs, e, (size, i, fits, c)) = absurd (omega (arith, m ns size i))

walk_chunks-Fill :
    (n : ℕ) (bytes : List ℕ) (at len : ℕ)
    → at + len ≤ length bytes
    → (b : Bool) × (walk_chunks n bytes at len ≡ ok b) × (b ≡ true ↔ Fill bytes n at len)
unfolding walk_chunks WalkMeans
walk_chunks-Fill zero bytes at len h = (len == 0, refl, (λ e. ([], refl, ground arith), λ f. go f))
  where
    go : Fill bytes 0 at len → (len == 0) ≡ true
    go ([], e, c) = ground arith
    go (ns ∷ cs, e, c) = absurd (omega arith)
walk_chunks-Fill (suc n) bytes at len h = elim (Bool-cases (ltb len 8)) [
  | inl short ↦
      (false, rw short refl, (λ e. cc, λ f. absurd (short-Fill bytes n at len (ground arith) f)))
  | inr long ↦
      let (r, e, m) =
        walk_items-WalkMeans (len - 3) bytes at 4 (len - 4) (ground arith) (ground arith) in
      go long r e m (λ off left le. walk_chunks-Fill n bytes (at + off) left le)
]
  where
    go :
        ltb len 8 ≡ false
        → (r : Option (ℕ × ℕ)) → walk_items (len - 3) bytes at 4 (len - 4) ≡ ok r
        → WalkMeans bytes at 4 (len - 4) r
        → ((off left : ℕ)
            → at + off + left ≤ length bytes
            → (b : Bool) × (walk_chunks n bytes (at + off) left ≡ ok b)
              × (b ≡ true ↔ Fill bytes n (at + off) left))
        → (b : Bool) × (walk_chunks (suc n) bytes at len ≡ ok b)
          × (b ≡ true ↔ Fill bytes (suc n) at len)
    go long none e m ih = (
      false,
      rw (long, e) refl,
      (λ q. cc, λ f. absurd (no_chunk bytes n at len m (ground arith) f)),
    )
    go long (some (off, left)) e m ih =
        let four : 4 ≤ len = ground arith in
        let (b, eb, i) = ih off left (omega (arith, m.left)) in
        (
          b,
          rw (long, e) eb,
          (
            λ q. chunk_back bytes n at len off left m four (i.0 q),
            λ f. i.1 (chunk_there bytes n at len off left m four f),
          ),
        )

-- The data less its padding is the header and as many chunks as it announces.
abbrev pub ValidSdes : List ℕ → ℕ → Type 0
ValidSdes bytes b0 =
    (len : ℕ) × Unpadded bytes b0 len
    × (cs : List (List ℕ)) × (length cs ≡ rtcp_count b0)
    × Chunks bytes 4 cs len

first_chunk :
    (bytes : List ℕ) (at : ℕ) (cs : List (List ℕ)) (end' : ℕ) → Chunks bytes at cs end' → at ≤ end'
first_chunk bytes at [] end' c = omega (arith, c)
first_chunk bytes at (ns ∷ cs) end' (size, i, fits, c) = omega arith

known-Chunks :
    (bytes : List ℕ) (count len : ℕ)
    → len ≤ length bytes
    → (b : Bool) × (sdes_known bytes count (some len) ≡ ok b)
      × (b ≡ true ↔ ((cs : List (List ℕ)) × (length cs ≡ count) × Chunks bytes 4 cs len))
unfolding sdes_known
known-Chunks bytes zero len h = (len == 4, refl, (λ e. ([], refl, ground arith), λ f. go f))
  where
    go : ((cs : List (List ℕ)) × (length cs ≡ 0) × Chunks bytes 4 cs len) → (len == 4) ≡ true
    go ([], e, c) = ground arith
    go (ns ∷ cs, e, c) = absurd (omega arith)
known-Chunks bytes (suc n) len h = elim (Bool-cases (ltb len 4)) [
  | inl short ↦ (
    false,
    ground arith,
    (λ e. cc, λ (cs, e, c). absurd (ground (arith, first_chunk bytes 4 cs len c))),
  )
  | inr long ↦
      let total : 4 + (len - 4) ≡ len = ground arith in
      let (b, e, i) = walk_chunks-Fill (suc n) bytes 4 (len - 4) (omega arith) in
      (
        b,
        ground arith,
        subst (λ k. b ≡ true ↔ ((cs : List (List ℕ)) × (length cs ≡ suc n) × Chunks bytes 4 cs k))
            total i,
      )
]

sdes_known-ValidSdes :
    (bytes : List ℕ) (b0 : ℕ) (o : Option ℕ)
    → StripMeans bytes b0 o
    → (b : Bool) × (sdes_known bytes (rtcp_count b0) o ≡ ok b) × (b ≡ true ↔ ValidSdes bytes b0)
unfolding StripMeans
sdes_known-ValidSdes bytes b0 none m =
    (false, unfold sdes_known in refl, (λ e. cc, λ (len, u, cs, e, c). absurd (m len u)))
sdes_known-ValidSdes bytes b0 (some len) m =
    let (b, e, i) = known-Chunks bytes (rtcp_count b0) len (Unpadded-le bytes b0 len m) in
    (
      b,
      e,
      (
        λ q. let (cs, e', c) = i.0 q in (len, m, cs, e', c),
        λ (len', u, cs, e', c). i.1 (moved len' u (cs, e', c)),
      ),
    )
  where
    moved :
        (len' : ℕ)
        → Unpadded bytes b0 len'
        → ((cs : List (List ℕ)) × (length cs ≡ rtcp_count b0) × Chunks bytes 4 cs len')
        → ((cs : List (List ℕ)) × (length cs ≡ rtcp_count b0) × Chunks bytes 4 cs len)
    moved len' u (cs, e, c) =
        (cs, e, subst (Chunks bytes 4 cs) (Unpadded-unique bytes b0 len' len u m) c)

-- The constructor of RTCPSDESPacket, on data with at least one byte, comes to an end and reads
-- inside the data; it knows the format exactly if the data less its padding is the header and as
-- many chunks, each an SSRC and items, as the header announces.
pub new_sdes_known :
    (bytes : List ℕ)
    → 0 < length bytes
    → (p : RtcpPacket) × (b0 : ℕ) × (new_sdes bytes ≡ ok p)
      × (byte_at bytes 0 ≡ ok b0)
      × (p.packettype ≡ sdes)
      × (p.data' ≡ bytes)
      × (p.knownformat ≡ true ↔ ValidSdes bytes b0)
unfolding new_sdes
new_sdes_known bytes h =
    let (b0, e0) = byte_at-lt bytes 0 h in
    let (o, eo, m) = strip_padding-StripMeans bytes b0 h in
    let (b, e, i) = sdes_known-ValidSdes bytes b0 o m in
    (record (new_packet sdes bytes) { knownformat = b }, b0, rw (e0, eo, e) refl, e0, refl, refl, i)
