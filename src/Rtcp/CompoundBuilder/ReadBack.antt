-- ===== src/Rtcp/CompoundBuilder/ReadBack.antt =====
-- RTCPSDESPacket reads the sources and items back that RTCPCompoundPacketBuilder wrote.
use jrtplib.Prelude.{
  ℕ, suc, ◌+◌, ◌%◌, ◌≤◌, ◌<◌, ◌≡◌, refl, ap, ap₂, sym, subst, ◌∙◌, List, [], ◌∷◌, map, All, length,
  arith, ok, ok-injective,
}
use jrtplib.Bytes.{bytes_at}
use jrtplib.Rtcp.Packet.{RtcpPacket, rtcp_count}
use jrtplib.Rtcp.Sdes.Grammar.{differ, round4}
use jrtplib.Rtcp.Sdes.{new_sdes}
use jrtplib.Rtcp.Sdes.Iterate.{item_type}
use jrtplib.Rtcp.Sdes.Iterate.Reading.{SdesItem, read_sdes}
use jrtplib.Rtcp.Sdes.Iterate.Items.{ItemsAre}
use jrtplib.Rtcp.Sdes.Iterate.Visits.{ChunksAre, read_sdes-ChunksAre}
use jrtplib.Rtcp.Compound.{make_packet}
use jrtplib.Rtcp.CompoundBuilder.{SdesSource, sources_bytes}
use jrtplib.Rtcp.CompoundBuilder.End.{chunks_bytes, sdes_part}
use jrtplib.Rtcp.CompoundBuilder.Sound.{byte0-packet_bytes, count-packet_bytes}
use jrtplib.Rtcp.CompoundBuilder.SdesSound.{
  IsSource, source_content, length-map, sdes_part-ChunksAre, sdes_part-Sound,
}

-- Items at the same place are the same.
ItemsAre-unique :
    (mem : List ℕ) (at : ℕ) (xs ys : List SdesItem) (last last' : ℕ)
    → ItemsAre mem at xs last
    → ItemsAre mem at ys last'
    → (xs ≡ ys) × (last ≡ last')
ItemsAre-unique mem at [] [] last last' i j = (refl, omega (arith, i.1, j.1))
ItemsAre-unique mem at [] (y ∷ ys) last last' i (id, e, et, en, ev, more) =
    absurd (differ id (sym e ∙ i.0))
ItemsAre-unique mem at (x ∷ xs) [] last last' (id, e, et, en, ev, more) j =
    absurd (differ id (sym e ∙ j.0))
ItemsAre-unique mem at ((t, v) ∷ xs) ((t', v') ∷ ys) last last' (id, e, et, en, ev, i)
      (id', e', et', en', ev', j) =
    let n : length v' ≡ length v = ok-injective (sym en' ∙ en) in
    let value : v ≡ v' =
      ok-injective (sym ev ∙ subst (λ k. bytes_at mem (at + 2) k ≡ ok v') n ev') in
    let ids : suc id ≡ suc id' = ok-injective (sym e ∙ e') in
    let kinds : t ≡ t' = et ∙ ap item_type ids ∙ sym et' in
    let (rest, ends) =
      ItemsAre-unique mem (at + 2 + length v) xs ys last last' i
        (subst (λ k. ItemsAre mem (at + 2 + k) ys last') n j) in
    (ap₂ ◌∷◌ (ap₂ (λ a b. (a, b)) kinds value) rest, ends)

ChunksAre-unique :
    (mem : List ℕ) (at : ℕ) (xs ys : List (ℕ × List SdesItem)) (end' end2 : ℕ)
    → length xs ≡ length ys
    → ChunksAre mem at xs end'
    → ChunksAre mem at ys end2
    → xs ≡ ys
ChunksAre-unique mem at [] [] end' end2 l c d = refl
ChunksAre-unique mem at [] (y ∷ ys) end' end2 l c d = absurd (omega arith)
ChunksAre-unique mem at (x ∷ xs) [] end' end2 l c d = absurd (omega arith)
ChunksAre-unique mem at ((s, is) ∷ xs) ((s', js) ∷ ys) end' end2 l (size, es, i, c)
      (size', es', j, d) =
    let (items, ends) = ItemsAre-unique mem (at + 4) is js (at + size) (at + size') i j in
    let same : size' ≡ size = omega (arith, ends) in
    let ssrcs : s ≡ s' = ok-injective (sym es ∙ es') in
    let rest =
      ChunksAre-unique mem (at + round4 (size + 1)) xs ys end' end2 (omega arith) c
        (subst (λ k. ChunksAre mem (at + round4 (k + 1)) ys end2) same d) in
    ap₂ ◌∷◌ (ap₂ (λ a b. (a, b)) ssrcs items) rest

-- The SDES packet that EndBuild writes for up to 31 sources with the sizes and items that the builder keeps, up
-- to 2^18 bytes long, makes an RTCPSDESPacket whose iteration gives the sources in their order, each
-- with its SSRC modulo 2^32 and its items in the order in which they were added.
pub sdes_part_read :
    (ss : List SdesSource)
    → All IsSource ss
    → length ss < 32
    → 4 + sources_bytes ss ≤ 262144
    → (p : RtcpPacket) × (make_packet 202 (sdes_part ss).1 ≡ ok p)
      × (read_sdes p ≡ ok (map source_content ss))
sdes_part_read ss a lt f =
    let s = sdes_part-Sound ss a lt f in
    let made : new_sdes (sdes_part ss).1 ≡ ok s.object = unfold make_packet in s.made in
    let (b0, len, out, e0, u, er, n, c) =
      read_sdes-ChunksAre (sdes_part ss).1 s.object made s.known in
    let first : b0 ≡ 128 + length ss % 32 =
      ok-injective
        (sym e0 ∙ (unfold sdes_part in byte0-packet_bytes (length ss) 202 (chunks_bytes 4 ss))) in
    let count : length out ≡ length (map source_content ss) = omega (
      arith,
      n,
      ap rtcp_count first,
      count-packet_bytes (length ss) lt,
      length-map source_content ss,
    ) in
    let same =
      ChunksAre-unique (sdes_part ss).1 4 out (map source_content ss) len (length (sdes_part ss).1)
        count c (sdes_part-ChunksAre ss a) in
    (s.object, s.made, er ∙ ap ok same)
