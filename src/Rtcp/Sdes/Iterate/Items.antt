-- ===== src/Rtcp/Sdes/Iterate/Items.antt =====
-- The iteration over the items of one chunk visits what stands there.
use jrtplib.Prelude.{
  ℕ, zero, suc, ◌+◌, ◌≤◌, ◌<◌, ◌≡◌, refl, sym, subst, true, false, List, [], ◌∷◌, some, length,
  arith, ok, take, drop, length-take, length-drop,
}
use jrtplib.Bytes.{byte_at, bytes_at, bytes_at-le, byte_at_inside}
use jrtplib.Rtcp.Packet.{RtcpPacket}
use jrtplib.Rtcp.Sdes.Grammar.{Items, Items-end}
use jrtplib.Rtcp.Sdes.Iterate.{
  item_type, SdesPacket, goto_first_item, goto_next_item, get_item_type, get_item_length,
  get_item_data,
}
use jrtplib.Rtcp.Sdes.Iterate.Reading.{SdesItem, read_item, read_items, read_chunk}

-- From `at` on stand these items, and then, at `last`, a zero byte.
abbrev pub ItemsAre : List ℕ → ℕ → List SdesItem → ℕ → Type 0
ItemsAre bytes at [] last = (byte_at bytes at ≡ ok 0) × (at ≡ last)
ItemsAre bytes at ((t, value) ∷ rest) last =
    (id : ℕ) × (byte_at bytes at ≡ ok (suc id))
    × (t ≡ item_type (suc id))
    × (byte_at bytes (at + 1) ≡ ok (length value))
    × (bytes_at bytes (at + 2) (length value) ≡ ok value)
    × ItemsAre bytes (at + 2 + length value) rest last

abbrev pub on_item : RtcpPacket → ℕ → ℕ → ℕ → SdesPacket
on_item p chunk num off = record {
  packet = p;
  currentchunk = some chunk;
  curchunknum = num;
  itemoffset = off;
}

read_item-Items :
    (p : RtcpPacket) (chunk num off id n : ℕ)
    → p.knownformat ≡ true
    → byte_at p.data' (chunk + off) ≡ ok (suc id)
    → byte_at p.data' (chunk + off + 1) ≡ ok n
    → chunk + off + 2 + n ≤ length p.data'
    → (value : List ℕ) × (read_item (on_item p chunk num off) ≡ ok (item_type (suc id), value))
      × (length value ≡ n)
      × (bytes_at p.data' (chunk + off + 2) n ≡ ok value)
unfolding read_item get_item_type get_item_length get_item_data
read_item-Items p chunk num off id n k e en h =
    let value : List ℕ = take n (drop (chunk + off + 2) p.data') in
    let there : bytes_at p.data' (chunk + off + 2) n ≡ ok value = bytes_at-le _ _ n h in
    (
      value,
      ground arith,
      omega (
        arith,
        length-take n (drop (chunk + off + 2) p.data'),
        length-drop (chunk + off + 2) p.data',
      ),
      there,
    )

goto_next_item-last :
    (p : RtcpPacket) (chunk num off id n : ℕ)
    → p.knownformat ≡ true
    → byte_at p.data' (chunk + off) ≡ ok (suc id)
    → byte_at p.data' (chunk + off + 1) ≡ ok n
    → byte_at p.data' (chunk + (off + 2 + n)) ≡ ok 0
    → goto_next_item (on_item p chunk num off) ≡ ok (false, on_item p chunk num off)
unfolding goto_next_item
goto_next_item-last p chunk num off id n k e en z = ground arith

goto_next_item-more :
    (p : RtcpPacket) (chunk num off id n id' : ℕ)
    → p.knownformat ≡ true
    → byte_at p.data' (chunk + off) ≡ ok (suc id)
    → byte_at p.data' (chunk + off + 1) ≡ ok n
    → byte_at p.data' (chunk + (off + 2 + n)) ≡ ok (suc id')
    → goto_next_item (on_item p chunk num off) ≡ ok (true, on_item p chunk num (off + 2 + n))
unfolding goto_next_item
goto_next_item-more p chunk num off id n id' k e en z = ground arith

pub Items-inside :
    (bytes : List ℕ) (at : ℕ) (ns : List ℕ) (last : ℕ)
    → Items bytes at ns last
    → last < length bytes
Items-inside bytes at [] last (e, q) = omega (arith, q, byte_at_inside bytes at e)
Items-inside bytes at (n ∷ ns) last (id, e, en, i) = Items-inside bytes (at + 2 + n) ns last i

-- What the loop over the items of a chunk gives, from the item at `off` on.
ItemsRead : ℕ → RtcpPacket → ℕ → ℕ → ℕ → ℕ → Type 0
ItemsRead fuel p chunk num off last =
    (out : List SdesItem) × (off' : ℕ) × (read_items fuel (on_item p chunk num off)
      ≡ ok (out, on_item p chunk num off'))
    × ItemsAre p.data' (chunk + off) out last

read-Items-Items :
    (fuel : ℕ) (p : RtcpPacket) (chunk num off n : ℕ) (ns : List ℕ) (last : ℕ)
    → p.knownformat ≡ true
    → Items p.data' (chunk + off) (n ∷ ns) last
    → last ≤ chunk + off + fuel
    → ItemsRead fuel p chunk num off last
unfolding read_items ItemsRead
read-Items-Items zero p chunk num off n ns last k i f =
    absurd (omega (arith, Items-end _ _ ns last (i.3)))
read-Items-Items (suc fuel) p chunk num off n ns last k (id, e, en, i) f =
    let place : chunk + off + 2 + n ≡ chunk + (off + 2 + n) = omega arith in
    let inside : chunk + off + 2 + n ≤ length p.data' =
      omega (arith, Items-end _ _ ns last i, Items-inside _ _ ns last i) in
    go place ns (subst (λ at. Items p.data' at ns last) place i)
      (read_item-Items p chunk num off id n k e en inside)
      (λ m ms j. read-Items-Items fuel p chunk num (off + 2 + n) m ms last k j (omega arith))
  where
    go :
        chunk + off + 2 + n ≡ chunk + (off + 2 + n)
        → (ns : List ℕ) → Items p.data' (chunk + (off + 2 + n)) ns last
        → (value : List ℕ) × (read_item (on_item p chunk num off) ≡ ok (item_type (suc id), value))
          × (length value ≡ n)
          × (bytes_at p.data' (chunk + off + 2) n ≡ ok value)
        → ((m : ℕ) (ms : List ℕ)
            → Items p.data' (chunk + (off + 2 + n)) (m ∷ ms) last
            → ItemsRead fuel p chunk num (off + 2 + n) last)
        → ItemsRead (suc fuel) p chunk num off last
    go place [] (z, at) (value, er, el, ev) ih = (
      (item_type (suc id), value) ∷ [],
      off,
      rw (er, goto_next_item-last p chunk num off id n k e en z) refl,
      (
        id,
        e,
        refl,
        rw el en,
        rw el ev,
        (rw el (subst (λ a. byte_at p.data' a ≡ ok 0) (sym place) z), omega (arith, at, el)),
      ),
    )
    go place (m ∷ ms) (id', e', en', j) (value, er, el, ev) ih =
        let (out, off', eo, is) = ih m ms (id', e', en', j) in
        (
          (item_type (suc id), value) ∷ out,
          off',
          rw (er, goto_next_item-more p chunk num off id n id' k e en e', eo) refl,
          (
            id,
            e,
            refl,
            rw el en,
            rw el ev,
            rw el (subst (λ a. ItemsAre p.data' a out last) (sym place) is),
          ),
        )

pub read_chunk-Items :
    (fuel : ℕ) (p : RtcpPacket) (chunk num : ℕ) (ns : List ℕ) (size : ℕ)
    → p.knownformat ≡ true
    → Items p.data' (chunk + 4) ns (chunk + size)
    → size ≤ 4 + fuel
    → (out : List SdesItem) × (off' : ℕ) × (read_chunk fuel (on_item p chunk num 4)
        ≡ ok (out, on_item p chunk num off'))
      × ItemsAre p.data' (chunk + 4) out (chunk + size)
unfolding read_chunk goto_first_item ItemsRead
read_chunk-Items fuel p chunk num [] size k (z, at) f = ([], 4, ground arith, (z, at))
read_chunk-Items fuel p chunk num (n ∷ ns) size k i f =
    let (id, e, en, rest) = i in
    let (out, off', eo, is) =
      read-Items-Items fuel p chunk num 4 n ns (chunk + size) k i (omega arith) in
    (out, off', ground arith, is)
