-- ===== src/Rtcp/Sdes/Iterate/Visits.antt =====
-- The iteration over the chunks visits what stands in the packet.
use jrtplib.Prelude.{
  ℕ, zero, suc, ◌+◌, ◌≤◌, ◌<◌, ◌≡◌, refl, sym, subst, true, false, List, [], ◌∷◌, length, arith, ok,
  ok-injective, >>=-eq-ok, ◌∙◌, ap,
}
use jrtplib.Bytes.{byte_at, u32_at, u32_at-lt, byte_at_inside}
use jrtplib.Rtcp.Packet.{RtcpPacket, rtcp_count}
use jrtplib.Rtcp.Packet.Fields.{get_count}
use jrtplib.Rtcp.Packet.Reads.{Unpadded}
use jrtplib.Rtcp.Sdes.{new_sdes}
use jrtplib.Rtcp.Sdes.Known.{new_sdes_known}
use jrtplib.Rtcp.Sdes.Grammar.{Items, Chunks, round4, Items-end}
use jrtplib.Rtcp.Sdes.Iterate.{
  get_chunk_count, goto_first_chunk, skip_items, pad_offset, goto_next_chunk, get_chunk_ssrc,
}
use jrtplib.Rtcp.Sdes.Iterate.Reading.{SdesItem, read_chunk, read_chunks, read_sdes}
use jrtplib.Rtcp.Sdes.Iterate.Items.{ItemsAre, on_item, Items-inside, read_chunk-Items}

-- From `at` to `end'` stand chunks of these SSRCs with these items.
abbrev pub ChunksAre : List ℕ → ℕ → List (ℕ × List SdesItem) → ℕ → Type 0
ChunksAre bytes at [] end' = at ≡ end'
ChunksAre bytes at ((ssrc, items) ∷ rest) end' =
    (size : ℕ) × (u32_at bytes at ≡ ok ssrc)
    × ItemsAre bytes (at + 4) items (at + size)
    × ChunksAre bytes (at + round4 (size + 1)) rest end'

-- The loop of GotoNextChunk comes to the zero byte behind the items.
skip_items-Items :
    (fuel : ℕ) (bytes : List ℕ) (chunk off : ℕ) (ns : List ℕ) (size : ℕ)
    → Items bytes (chunk + off) ns (chunk + size)
    → size < off + fuel
    → skip_items fuel bytes chunk off ≡ ok size
unfolding skip_items
skip_items-Items zero bytes chunk off ns size i f = absurd (omega (arith, Items-end _ _ ns _ i))
skip_items-Items (suc fuel) bytes chunk off [] size (z, at) f =
    let same : off ≡ size = omega (arith, at) in rw z (ap ok same)
skip_items-Items (suc fuel) bytes chunk off (n ∷ ns) size (id, e, en, i) f =
    let place : chunk + off + 2 + n ≡ chunk + (off + 2 + n) = omega arith in
    let rest =
      skip_items-Items fuel bytes chunk (off + 2 + n) ns size
        (subst (λ at. Items bytes at ns (chunk + size)) place i) (omega arith) in
    ground arith

pad_offset-round4 : (n : ℕ) → pad_offset n ≡ round4 n
pad_offset-round4 n = ground arith

goto_next_chunk-Items :
    (fuel : ℕ) (p : RtcpPacket) (chunk num off count : ℕ) (ns : List ℕ) (size : ℕ)
    → p.knownformat ≡ true
    → get_count p ≡ ok count
    → num < count
    → Items p.data' (chunk + 4) ns (chunk + size)
    → size < 4 + fuel
    → goto_next_chunk fuel (on_item p chunk num off)
      ≡ ok (true, on_item p (chunk + round4 (size + 1)) (num + 1) 4)
unfolding goto_next_chunk get_chunk_count
goto_next_chunk-Items fuel p chunk num off count ns size k c lt i f =
    let skipped = skip_items-Items fuel p.data' chunk 4 ns size i f in
    let padded = pad_offset-round4 (size + 1) in ground arith

goto_next_chunk-last :
    (fuel : ℕ) (p : RtcpPacket) (chunk num off : ℕ)
    → p.knownformat ≡ true
    → get_count p ≡ ok num
    → goto_next_chunk fuel (on_item p chunk num off) ≡ ok (false, on_item p chunk num off)
unfolding goto_next_chunk get_chunk_count
goto_next_chunk-last fuel p chunk num off k c = ground arith

ChunksRead : ℕ → ℕ → RtcpPacket → ℕ → ℕ → ℕ → ℕ → Type 0
ChunksRead rounds fuel p chunk num n end' =
    (out : List (ℕ × List SdesItem)) × (read_chunks rounds fuel (on_item p chunk num 4) ≡ ok out)
    × (length out ≡ n)
    × ChunksAre p.data' chunk out end'

read-Chunks-Chunks :
    (rounds fuel : ℕ) (p : RtcpPacket) (chunk num count : ℕ) (ns : List ℕ) (rest : List (List ℕ))
    (end' : ℕ)
    → p.knownformat ≡ true
    → get_count p ≡ ok count
    → length p.data' ≤ fuel
    → Chunks p.data' chunk (ns ∷ rest) end'
    → num + length rest ≡ count
    → length rest < rounds
    → ChunksRead rounds fuel p chunk num (suc (length rest)) end'
unfolding read_chunks ChunksRead
read-Chunks-Chunks zero fuel p chunk num count ns rest end' k c f cs total r = absurd (omega arith)
read-Chunks-Chunks (suc rounds) fuel p chunk num count ns rest end' k c f (size, i, fits, cs) total
      r =
    let inside = Items-inside _ _ ns _ i in
    let (ssrc, es) = u32_at-lt p.data' chunk (omega (arith, Items-end _ _ ns _ i)) in
    let (items, off', ei, is) = read_chunk-Items fuel p chunk num ns size k i (omega arith) in
    go rest cs total r ssrc es items off' ei is inside (λ m ms d.
      read-Chunks-Chunks rounds fuel p (chunk + round4 (size + 1)) (num + 1) count m ms end' k c f
        d)
  where
    go :
        (rest : List (List ℕ))
        → Chunks p.data' (chunk + round4 (size + 1)) rest end'
        → num + length rest ≡ count
        → length rest < suc rounds
        → (ssrc : ℕ) → u32_at p.data' chunk ≡ ok ssrc
        → (items : List SdesItem) (off' : ℕ)
        → read_chunk fuel (on_item p chunk num 4) ≡ ok (items, on_item p chunk num off')
        → ItemsAre p.data' (chunk + 4) items (chunk + size)
        → chunk + size < length p.data'
        → ((m : List ℕ) (ms : List (List ℕ))
            → Chunks p.data' (chunk + round4 (size + 1)) (m ∷ ms) end'
            → num + 1 + length ms ≡ count
            → length ms < rounds
            → ChunksRead rounds fuel p (chunk + round4 (size + 1)) (num + 1) (suc (length ms)) end')
        → ChunksRead (suc rounds) fuel p chunk num (suc (length rest)) end'
    go [] at total r ssrc es items off' ei is inside ih =
        let same : get_count p ≡ ok num = c ∙ ap ok (omega (arith, total)) in
        let this : get_chunk_ssrc (on_item p chunk num 4) ≡ ok ssrc =
          unfold get_chunk_ssrc in ground arith in
        (
          (ssrc, items) ∷ [],
          rw (this, ei, goto_next_chunk-last fuel p chunk num off' k same) refl,
          refl,
          (size, es, is, at),
        )
    go (m ∷ ms) d total r ssrc es items off' ei is inside ih =
        let this : get_chunk_ssrc (on_item p chunk num 4) ≡ ok ssrc =
          unfold get_chunk_ssrc in ground arith in
        let next =
          goto_next_chunk-Items fuel p chunk num off' count ns size k c (omega arith) i
            (omega arith) in
        let (out, eo, el, os) = ih m ms d (omega arith) (omega arith) in
        ((ssrc, items) ∷ out, rw (this, ei, next, eo) refl, omega (arith, el), (size, es, is, os))

-- The iteration over a packet of known format.
known_packet-ChunksAre :
    (p : RtcpPacket) (b0 len : ℕ) (cs : List (List ℕ))
    → p.knownformat ≡ true
    → byte_at p.data' 0 ≡ ok b0
    → length cs ≡ rtcp_count b0
    → Chunks p.data' 4 cs len
    → (out : List (ℕ × List SdesItem)) × (read_sdes p ≡ ok out)
      × (length out ≡ rtcp_count b0)
      × ChunksAre p.data' 4 out len
unfolding read_sdes goto_first_chunk get_chunk_count get_count ChunksRead
known_packet-ChunksAre p b0 len [] k e n c = ([], ground arith, n, c)
known_packet-ChunksAre p b0 len (ns ∷ cs) k e n c =
    let counted : get_count p ≡ ok (suc (length cs)) = ground arith in
    let (out, eo, el, os) =
      read-Chunks-Chunks 31 (length p.data') p 4 1 (suc (length cs)) ns cs len k counted
        (omega arith) c (omega arith) (omega arith) in
    (out, ground arith, omega (arith, el, n), os)

new_sdes-inside : (bytes : List ℕ) (p : RtcpPacket) → new_sdes bytes ≡ ok p → 0 < length bytes
unfolding new_sdes
new_sdes-inside bytes p e =
    let (b0, e0, rest) = >>=-eq-ok (byte_at bytes 0) _ e in byte_at_inside bytes 0 e0

-- On an SDES packet whose format the constructor knows, the iteration over the chunks and their
-- items comes to an end and reads inside the packet. It gives as many chunks as the header
-- announces, each with the SSRC, the item types and the item data that stand in the packet, in
-- order and one behind the other up to the end of the data less its padding.
pub read_sdes-ChunksAre :
    (bytes : List ℕ) (p : RtcpPacket)
    → new_sdes bytes ≡ ok p
    → p.knownformat ≡ true
    → (b0 : ℕ) × (len : ℕ) × (out : List (ℕ × List SdesItem)) × (byte_at bytes 0 ≡ ok b0)
      × Unpadded bytes b0 len
      × (read_sdes p ≡ ok out)
      × (length out ≡ rtcp_count b0)
      × ChunksAre bytes 4 out len
read_sdes-ChunksAre bytes p e k =
    let (p', b0, e', eb, et, ed, i) = new_sdes_known bytes (new_sdes-inside bytes p e) in
    let same : p' ≡ p = ok-injective (sym e' ∙ e) in
    let data_is : p.data' ≡ bytes = subst (λ q. q.data' ≡ bytes) same ed in
    let (len, u, cs, el, c) = i.0 (subst (λ q. q.knownformat ≡ true) (sym same) k) in
    let (out, eo, lo, os) =
      known_packet-ChunksAre p b0 len cs k (subst (λ m. byte_at m 0 ≡ ok b0) (sym data_is) eb) el
        (subst (λ m. Chunks m 4 cs len) (sym data_is) c) in
    (b0, len, out, eb, u, eo, lo, subst (λ m. ChunksAre m 4 out len) data_is os)
