-- ===== src/Rtcp/Sdes/Iterate/Private.antt =====
-- A private SDES item that RTCPCompoundPacketBuilder writes is read back by the accessors of
-- RTCPSDESPacket (src/rtcpsdespacket.h).
use jrtplib.Prelude.{
  ℕ, ◌+◌, ◌-◌, ◌≡◌, refl, ap, sym, ◌∙◌, true, List, [], ◌∷◌, ◌++◌, Option, none, some, length,
  length-append, arith, Outcome, ok, if◌then◌else◌, suc==zero, ◌>>=◌, ◌==◌,
}
use mathlib.Core.List.{append_assoc}
use jrtplib.Bytes.{byte_at, byte_at-append, bytes_at, bytes_at-append}
use jrtplib.Rtcp.Sdes.Iterate.{
  SdesPacket, priv_lengths, get_priv_prefix_length, get_priv_prefix_data, get_priv_value_length,
  get_priv_value_data,
}

-- The `n` bytes at a pointer, none where it is null.
abbrev pub at_pointer : List ℕ → Option ℕ → ℕ → Outcome (List ℕ)
at_pointer mem none n = ok []
at_pointer mem (some at) n = bytes_at mem at n

-- The prefix and the value of the current item, as a user of RTCPSDESPacket reads them.
unfoldable pub read_priv : SdesPacket → Outcome (List ℕ × List ℕ)
read_priv s = do
  prefixlength ← get_priv_prefix_length s
  prefixdata ← get_priv_prefix_data s
  prefix ← at_pointer s.packet.data' prefixdata prefixlength
  valuelength ← get_priv_value_length s
  valuedata ← get_priv_value_data s
  value ← at_pointer s.packet.data' valuedata valuelength
  ok (prefix, value)

-- The pointer to `n` bytes, null where there are none.
abbrev pointer : ℕ → ℕ → Option ℕ
pointer n at = if n == 0 then none else some at

at_pointer-pointer :
    (mem xs : List ℕ) (at : ℕ)
    → bytes_at mem at (length xs) ≡ ok xs
    → at_pointer mem (pointer (length xs) at) (length xs) ≡ ok xs
at_pointer-pointer mem [] at e = refl
at_pointer-pointer mem (x ∷ xs) at e = rw (suc==zero (length xs)) e

priv_lengths-item :
    (s : SdesPacket) (chunk : ℕ) (front prefix value rest : List ℕ)
    → length front ≡ chunk + s.itemoffset
    → s.packet.data'
      ≡ front
        ++ (8 ∷ (length prefix + 1 + length value) ∷ length prefix ∷ (prefix ++ (value ++ rest)))
    → priv_lengths s chunk ≡ ok (some (length prefix + 1 + length value, length prefix))
unfolding priv_lengths
priv_lengths-item s chunk front prefix value rest l e =
    let tail : List ℕ =
      8 ∷ (length prefix + 1 + length value) ∷ length prefix ∷ (prefix ++ (value ++ rest)) in
    let e0 : byte_at s.packet.data' (chunk + s.itemoffset) ≡ ok 8 =
      ap (λ m. byte_at m (chunk + s.itemoffset)) e
      ∙ byte_at-append front tail 0 (chunk + s.itemoffset) (omega arith)
      ∙ (unfold byte_at in refl) in
    let e1 : byte_at s.packet.data' (chunk + s.itemoffset + 1)
        ≡ ok (length prefix + 1 + length value) =
      ap (λ m. byte_at m (chunk + s.itemoffset + 1)) e
      ∙ byte_at-append front tail 1 (chunk + s.itemoffset + 1) (omega arith)
      ∙ (unfold byte_at in refl) in
    let e2 : byte_at s.packet.data' (chunk + s.itemoffset + 2) ≡ ok (length prefix) =
      ap (λ m. byte_at m (chunk + s.itemoffset + 2)) e
      ∙ byte_at-append front tail 2 (chunk + s.itemoffset + 2) (omega arith)
      ∙ (unfold byte_at in refl) in
    ground arith

-- On an SDES packet of known format, where the current item is a private item with this prefix and
-- value, as AddSDESPrivateItem writes it, the accessors give the prefix and the value back.
pub read_priv-item :
    (s : SdesPacket) (chunk : ℕ) (front prefix value rest : List ℕ)
    → s.packet.knownformat ≡ true
    → s.currentchunk ≡ some chunk
    → length front ≡ chunk + s.itemoffset
    → s.packet.data'
      ≡ front
        ++ (8 ∷ (length prefix + 1 + length value) ∷ length prefix ∷ (prefix ++ (value ++ rest)))
    → read_priv s ≡ ok (prefix, value)
unfolding read_priv get_priv_prefix_length get_priv_prefix_data get_priv_value_length
    get_priv_value_data
read_priv-item s chunk front prefix value rest k c l e =
    let lengths = priv_lengths-item s chunk front prefix value rest l e in
    let head : List ℕ = 8 ∷ (length prefix + 1 + length value) ∷ length prefix ∷ [] in
    let at : ℕ = chunk + s.itemoffset + 2 + 1 in
    let behind : s.packet.data' ≡ (front ++ head) ++ (prefix ++ (value ++ rest)) =
      e ∙ sym (append_assoc front head (prefix ++ (value ++ rest))) in
    let further : s.packet.data' ≡ ((front ++ head) ++ prefix) ++ (value ++ rest) =
      behind ∙ sym (append_assoc (front ++ head) prefix (value ++ rest)) in
    let size : length (front ++ head) ≡ at = omega (arith, l, length-append front head) in
    let size' = length-append (front ++ head) prefix in
    let first : bytes_at s.packet.data' at (length prefix) ≡ ok prefix =
      ap (λ m. bytes_at m at (length prefix)) behind
      ∙ bytes_at-append (front ++ head) prefix (value ++ rest) at (length prefix) (sym size) refl in
    let second : bytes_at s.packet.data' (at + length prefix) (length value) ≡ ok value =
      ap (λ m. bytes_at m (at + length prefix) (length value)) further
      ∙ bytes_at-append ((front ++ head) ++ prefix) value rest (at + length prefix) (length value)
          (omega (arith, size, size')) refl in
    let a : get_priv_prefix_length s ≡ ok (length prefix) = ground arith in
    let b : get_priv_prefix_data s ≡ ok (pointer (length prefix) at) = ground arith in
    let left : length prefix + 1 + length value - length prefix - 1 ≡ length value = omega arith in
    let v : get_priv_value_length s ≡ ok (length value) = ground arith in
    let d : get_priv_value_data s ≡ ok (pointer (length value) (at + length prefix)) =
      rw (k, c, lengths, left) refl in
    rw
      (
        a,
        b,
        at_pointer-pointer s.packet.data' prefix at first,
        v,
        d,
        at_pointer-pointer s.packet.data' value (at + length prefix) second,
      )
      refl
