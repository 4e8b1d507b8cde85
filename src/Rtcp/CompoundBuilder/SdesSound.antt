-- ===== src/Rtcp/CompoundBuilder/SdesSound.antt =====
-- The SDES packets that RTCPCompoundPacketBuilder writes hold their sources and items.
use jrtplib.Prelude.{
  ℕ, suc, ◌+◌, ◌-◌, ◌/◌, ◌%◌, ◌≤◌, ◌<◌, ◌≡◌, refl, ap, sym, subst, ◌∙◌, inl, List, [], ◌∷◌, ◌++◌,
  map, All, length, length-append, arith, ok, ok-injective, false,
}
use mathlib.Core.List.{append_assoc}
use jrtplib.Bytes.{
  byte_at, u16_at, u32_at, bytes_at, byte_at-append, u32_at-append, bytes_at-append, put_u16,
  put_u32, length-put_u32,
}
use jrtplib.Rtcp.Packet.{rtcp_count, rtcp_padding}
use jrtplib.Rtcp.Sdes.Grammar.{Items, Chunks, round4}
use jrtplib.Rtcp.Sdes.Known.{new_sdes_known}
use jrtplib.Rtcp.Sdes.Iterate.{item_type, none_item}
use jrtplib.Rtcp.Sdes.Iterate.Reading.{SdesItem}
use jrtplib.Rtcp.Sdes.Iterate.Items.{ItemsAre}
use jrtplib.Rtcp.Sdes.Iterate.Visits.{ChunksAre}
use jrtplib.Rtcp.Compound.{make_packet}
use jrtplib.Rtcp.CompoundBuilder.{SdesSource, source_bytes, sources_bytes}
use jrtplib.Rtcp.CompoundBuilder.Farewell.{packet_bytes, zeros, padding_of}
use jrtplib.Rtcp.CompoundBuilder.End.{concat, chunk_bytes, chunks_bytes, sdes_part}
use jrtplib.Rtcp.CompoundBuilder.Sound.{
  Sound, length-packet_bytes, byte0-packet_bytes, length-zeros,
}

-- A buffer of the builder's SDES items: an id that is not 0, the length and the value.
abbrev pub IsItem : List ℕ → Type 0
IsItem buf = (id : ℕ) × (value : List ℕ) × (buf ≡ suc id ∷ length value ∷ value)

abbrev pub IsSource : SdesSource → Type 0
IsSource s = (s.totalitemsize ≡ length (concat s.items)) × All IsItem s.items

abbrev pub item_content : List ℕ → SdesItem
item_content [] = (none_item, [])
item_content (id ∷ []) = (item_type id, [])
item_content (id ∷ n ∷ value) = (item_type id, value)

-- The SSRC and the items of a source.
abbrev pub source_content : SdesSource → ℕ × List SdesItem
source_content s = (s.ssrc % 4294967296, map item_content s.items)

-- An item behind `pre` is read back.
item_there :
    (mem pre rest : List ℕ) (at id : ℕ) (value : List ℕ)
    → at ≡ length pre
    → mem ≡ pre ++ (suc id ∷ length value ∷ (value ++ rest))
    → (byte_at mem at ≡ ok (suc id))
      × (byte_at mem (at + 1) ≡ ok (length value))
      × (bytes_at mem (at + 2) (length value) ≡ ok value)
item_there mem pre rest at id value l e =
    let tail : List ℕ = suc id ∷ length value ∷ (value ++ rest) in
    let moved : mem ≡ (pre ++ (suc id ∷ length value ∷ [])) ++ (value ++ rest) =
      e ∙ sym (append_assoc pre (suc id ∷ length value ∷ []) (value ++ rest)) in
    (
      rw e (byte_at-append pre tail 0 at (omega (arith, l)) ∙ (unfold byte_at in refl)),
      rw e (byte_at-append pre tail 1 (at + 1) (omega (arith, l)) ∙ (unfold byte_at in refl)),
      rw moved (
          bytes_at-append (pre ++ (suc id ∷ length value ∷ [])) value rest (at + 2) (length value)
            (omega (arith, l, length-append pre (suc id ∷ length value ∷ []))) refl),
    )

written-ItemsAre :
    (items : List (List ℕ)) (mem pre tail : List ℕ) (at : ℕ)
    → All IsItem items
    → at ≡ length pre
    → mem ≡ pre ++ (concat items ++ (0 ∷ tail))
    → ItemsAre mem at (map item_content items) (at + length (concat items))
written-ItemsAre [] mem pre tail at a l e = (
  rw e (byte_at-append pre (0 ∷ tail) 0 at (omega arith) ∙ (unfold byte_at in refl)),
  omega arith,
)
written-ItemsAre (buf ∷ items) mem pre tail at ((id, value, eb), a) l e =
    let rest : List ℕ = concat items ++ (0 ∷ tail) in
    let split : mem ≡ pre ++ (buf ++ rest) =
      e ∙ ap (λ x. pre ++ x) (append_assoc buf (concat items) (0 ∷ tail)) in
    let (e0, e1, e2) =
      item_there mem pre rest at id value l (split ∙ ap (λ x. pre ++ (x ++ rest)) eb) in
    let size : length buf ≡ 2 + length value = ap length eb ∙ omega arith in
    let later =
      written-ItemsAre items mem (pre ++ buf) tail (at + 2 + length value) a
        (omega (arith, l, size, length-append pre buf)) (split ∙ sym (append_assoc pre buf rest)) in
    let whole : at + 2 + length value + length (concat items) ≡ at + length (buf ++ concat items) =
      omega (arith, size, length-append buf (concat items)) in
    subst (λ c. ItemsAre mem at (c ∷ map item_content items) (at + length (buf ++ concat items)))
      (sym (ap item_content eb))
      (
        id,
        e0,
        refl,
        e1,
        e2,
        subst (ItemsAre mem (at + 2 + length value) (map item_content items)) whole later,
      )

length-chunk_bytes :
    (offset : ℕ) (s : SdesSource)
    → offset % 4 ≡ 0
    → IsSource s
    → (length (chunk_bytes offset s) ≡ source_bytes s)
      × (length (chunk_bytes offset s) % 4 ≡ 0)
      × (length (chunk_bytes offset s) ≡ round4 (4 + length (concat s.items) + 1))
unfolding chunk_bytes
length-chunk_bytes offset s m (t, a) =
    let pad : ℕ = padding_of (offset + 4 + length (concat s.items) + 1) in
    let size = length-append (put_u32 s.ssrc) (concat s.items ++ (0 ∷ zeros pad)) in
    let size' = length-append (concat s.items) (0 ∷ zeros pad) in
    let z = length-zeros pad in
    let w = length-put_u32 s.ssrc in (ground arith, ground arith, ground arith)

pub length-chunks_bytes :
    (offset : ℕ) (ss : List SdesSource)
    → offset % 4 ≡ 0
    → All IsSource ss
    → (length (chunks_bytes offset ss) ≡ sources_bytes ss)
      × (length (chunks_bytes offset ss) % 4 ≡ 0)
unfolding chunks_bytes
length-chunks_bytes offset [] m a = (refl, omega arith)
length-chunks_bytes offset (s ∷ ss) m (i, a) =
    let (e, d, r) = length-chunk_bytes offset s m i in
    let (e', d') =
      length-chunks_bytes (offset + length (chunk_bytes offset s)) ss (omega arith) a in
    let size =
      length-append (chunk_bytes offset s)
        (chunks_bytes (offset + length (chunk_bytes offset s)) ss) in
    (omega (arith, e, e', size), omega (arith, d, d', size))

u32_at-put_any : (n : ℕ) (rest : List ℕ) → u32_at (put_u32 n ++ rest) 0 ≡ ok (n % 4294967296)
unfolding u32_at u16_at byte_at put_u32
u32_at-put_any n rest = ap ok (omega arith)

chunk_bytes-append :
    (at : ℕ) (s : SdesSource) (rest : List ℕ)
    → chunk_bytes at s ++ rest
      ≡ put_u32 s.ssrc
        ++ (concat s.items
            ++ (0 ∷ (zeros (padding_of (at + 4 + length (concat s.items) + 1)) ++ rest)))
unfolding chunk_bytes
chunk_bytes-append at s rest =
    let z : List ℕ = 0 ∷ zeros (padding_of (at + 4 + length (concat s.items) + 1)) in
    append_assoc (put_u32 s.ssrc) (concat s.items ++ z) rest
    ∙ ap (λ x. put_u32 s.ssrc ++ x) (append_assoc (concat s.items) z rest)

written-ChunksAre :
    (ss : List SdesSource) (mem pre : List ℕ) (at : ℕ)
    → All IsSource ss
    → at ≡ length pre
    → at % 4 ≡ 0
    → mem ≡ pre ++ chunks_bytes at ss
    → ChunksAre mem at (map source_content ss) (at + length (chunks_bytes at ss))
unfolding chunks_bytes
written-ChunksAre [] mem pre at a l m e = omega arith
written-ChunksAre (s ∷ ss) mem pre at (i, a) l m e =
    let chunk : List ℕ = chunk_bytes at s in
    let rest : List ℕ = chunks_bytes (at + length chunk) ss in
    let (eb, d, r) = length-chunk_bytes at s m i in
    let later =
      written-ChunksAre ss mem (pre ++ chunk) (at + length chunk) a
        (omega (arith, l, length-append pre chunk)) (omega arith)
        (e ∙ sym (append_assoc pre chunk rest)) in
    let tail : List ℕ = zeros (padding_of (at + 4 + length (concat s.items) + 1)) ++ rest in
    let body : List ℕ = concat s.items ++ (0 ∷ tail) in
    let split : mem ≡ pre ++ (put_u32 s.ssrc ++ body) =
      e ∙ ap (λ x. pre ++ x) (chunk_bytes-append at s rest) in
    let items =
      written-ItemsAre s.items mem (pre ++ put_u32 s.ssrc) tail (at + 4) i.1
        (omega (arith, l, length-append pre (put_u32 s.ssrc), length-put_u32 s.ssrc))
        (split ∙ sym (append_assoc pre (put_u32 s.ssrc) body)) in
    let size : ℕ = 4 + length (concat s.items) in
    let place : at + length chunk ≡ at + round4 (size + 1) = omega (arith, r) in
    let last : at + length chunk + length rest ≡ at + length (chunk ++ rest) =
      omega (arith, length-append chunk rest) in
    let there : u32_at mem at ≡ ok (s.ssrc % 4294967296) = rw split (
      u32_at-append pre (put_u32 s.ssrc ++ body) 0 at (omega (arith, l))
      ∙ u32_at-put_any s.ssrc body) in
    (
      size,
      there,
      subst (ItemsAre mem (at + 4) (map item_content s.items)) (omega arith) items,
      subst (λ k. ChunksAre mem k (map source_content ss) (at + length (chunk ++ rest))) place
          (subst (ChunksAre mem (at + length chunk) (map source_content ss)) last later),
    )

pub length-map {ℓ κ} :
    {A : Type ℓ} {B : Type κ} (f : A → B) (xs : List A) → length (map f xs) ≡ length xs
length-map f [] = refl
length-map f (x ∷ xs) = ap suc (length-map f xs)

ItemsAre-Items :
    (mem : List ℕ) (out : List SdesItem) (at last : ℕ)
    → ItemsAre mem at out last
    → Items mem at (map (λ i. length i.1) out) last
ItemsAre-Items mem [] at last i = i
ItemsAre-Items mem ((t, value) ∷ out) at last (id, e, et, en, ev, i) =
    (id, e, en, ItemsAre-Items mem out (at + 2 + length value) last i)

ChunksAre-end :
    (mem : List ℕ) (out : List (ℕ × List SdesItem)) (at end' : ℕ)
    → ChunksAre mem at out end'
    → at ≤ end'
ChunksAre-end mem [] at end' c = omega (arith, c)
ChunksAre-end mem (o ∷ out) at end' (size, es, is, c) =
    omega (arith, ChunksAre-end mem out (at + round4 (size + 1)) end' c)

ChunksAre-Chunks :
    (mem : List ℕ) (out : List (ℕ × List SdesItem)) (at end' : ℕ)
    → ChunksAre mem at out end'
    → Chunks mem at (map (λ o. map (λ i. length i.1) o.1) out) end'
ChunksAre-Chunks mem [] at end' c = c
ChunksAre-Chunks mem ((ssrc, items) ∷ out) at end' (size, es, is, c) = (
  size,
  ItemsAre-Items mem items (at + 4) (at + size) is,
  ChunksAre-end mem out (at + round4 (size + 1)) end' c,
  ChunksAre-Chunks mem out (at + round4 (size + 1)) end' c,
)

-- The packet of some of the sources.
pub sdes_part-ChunksAre :
    (ss : List SdesSource)
    → All IsSource ss
    → ChunksAre (sdes_part ss).1 4 (map source_content ss) (length (sdes_part ss).1)
unfolding sdes_part packet_bytes put_u16
sdes_part-ChunksAre ss a =
    let body : List ℕ = chunks_bytes 4 ss in
    let n : ℕ = (4 + length body) / 4 - 1 in
    subst (ChunksAre (sdes_part ss).1 4 (map source_content ss)) (omega arith) (
      written-ChunksAre ss (sdes_part ss).1
        ((128 + length ss % 32) ∷ 202 ∷ (n / 256 % 256) ∷ (n % 256) ∷ []) 4 a refl (omega arith)
        refl)

pub sdes_part-Sound :
    (ss : List SdesSource)
    → All IsSource ss
    → length ss < 32
    → 4 + sources_bytes ss ≤ 262144
    → Sound 202 (sdes_part ss).1
unfolding sdes_part
sdes_part-Sound ss a lt f =
    let body : List ℕ = chunks_bytes 4 ss in
    let bytes : List ℕ = packet_bytes (length ss) 202 body in
    let size = length-packet_bytes (length ss) 202 body in
    let (eb, d) = length-chunks_bytes 4 ss (omega arith) a in
    let (p, b0, made, e0, kind, memory, known) = new_sdes_known bytes (omega (arith, size)) in
    let same : b0 ≡ 128 + length ss % 32 =
      ok-injective (sym e0 ∙ byte0-packet_bytes (length ss) 202 body) in
    let counted : length ss ≡ rtcp_count b0 = omega (arith, same) in
    let plain : rtcp_padding b0 ≡ false = ground arith in
    let cs : List (List ℕ) = map (λ o. map (λ i. length i.1) o.1) (map source_content ss) in
    record {
      count = length ss;
      body = body;
      whole = refl;
      words = d;
      fits = omega (arith, eb);
      object = p;
      made = unfold make_packet in made;
      known = known.1 (
        length bytes,
        inl (plain, refl),
        cs,
        length-map _ (map source_content ss) ∙ length-map source_content ss ∙ counted,
        ChunksAre-Chunks bytes (map source_content ss) 4 (length bytes) (sdes_part-ChunksAre ss a),
      );
    }
