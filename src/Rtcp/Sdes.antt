-- ===== src/Rtcp/Sdes.antt =====
-- RTCPSDESPacket (src/rtcpsdespacket.h, src/rtcpsdespacket.cpp): the constructor's check of
-- the chunks and their items.
pub mod Grammar
pub mod Known
pub mod Iterate
use jrtplib.Prelude.{
  ℕ, zero, suc, ◌+◌, ◌-◌, ◌*◌, ◌%◌, Bool, true, false, not, ◌||◌, List, [], ◌∷◌, Option, none, some,
  length, ltb, leb, ◌==◌, if◌then◌else◌, Outcome, ok, err, fault, ◌>>=◌,
}
use jrtplib.Bytes.{byte_at, u32_at, bytes_at}
use jrtplib.Rtcp.Packet.{PacketType, RtcpPacket, new_packet, rtcp_count, strip_padding, sdes}

-- What stands at a place of an item list of which `len` bytes are left: nothing valid, the byte
-- that ends the list, or an item with this many bytes of data.
pub data ItemStep : Type 0 where
  invalid : ItemStep
  list_end : ItemStep
  item : ℕ → ItemStep

item_length : List ℕ → ℕ → ℕ → Outcome ItemStep
item_length bytes at len = do
  itemlen ← byte_at bytes (at + 1)
  ok (if ltb (len - 2) itemlen then invalid else item itemlen)

unfoldable pub item_step : List ℕ → ℕ → ℕ → Outcome ItemStep
unfolding item_length
item_step bytes at len = if ltb len 1 then ok invalid else (do
  sdesid ← byte_at bytes at
  if sdesid == 0 then ok list_end else if ltb len 2 then ok invalid else item_length bytes at len)

-- Past the end of the list to the next multiple of four: the new `chunkoffset` and `len`.
unfoldable pub close_chunk : ℕ → ℕ → Option (ℕ × ℕ)
close_chunk chunkoffset len =
    let r = (chunkoffset + 1) % 4 in
    if r == 0
    then some (chunkoffset + 1, len - 1)
    else if ltb (len - 1) (4 - r)
    then none
    else some (chunkoffset + 1 + (4 - r), len - 1 - (4 - r))

-- The loop over the items of a chunk. Each round uses up bytes; the fault stands for
-- running out of fuel.
unfoldable pub walk_items : ℕ → List ℕ → ℕ → ℕ → ℕ → Outcome (Option (ℕ × ℕ))
walk_items zero bytes chunk chunkoffset len = fault
walk_items (suc fuel) bytes chunk chunkoffset len = do
  step ← item_step bytes (chunk + chunkoffset) len
  elim step [
    | invalid ↦ ok none
    | list_end ↦ ok (close_chunk chunkoffset len)
    | item n ↦ walk_items fuel bytes chunk (chunkoffset + 2 + n) (len - 2 - n)
  ]

-- The loop over the chunks, `true` where knownformat is set.
unfoldable pub walk_chunks : ℕ → List ℕ → ℕ → ℕ → Outcome Bool
unfolding walk_items
walk_chunks zero bytes chunk len = ok (len == 0)
walk_chunks (suc ssrccount) bytes chunk len = if ltb len 8 then ok false else (do
  r ← walk_items (len - 3) bytes chunk 4 (len - 4)
  elim r [
    | none ↦ ok false
    | some (chunkoffset, left) ↦ walk_chunks ssrccount bytes (chunk + chunkoffset) left
  ])

unfoldable pub sdes_known : List ℕ → ℕ → Option ℕ → Outcome Bool
sdes_known bytes count none = ok false
sdes_known bytes count (some len) =
    if count == 0
    then ok (len == 4)
    else if ltb len 4
    then ok false
    else walk_chunks count bytes 4 (len - 4)

unfoldable pub new_sdes : List ℕ → Outcome RtcpPacket
unfolding strip_padding byte_at sdes_known
new_sdes bytes = do
  b0 ← byte_at bytes 0
  len ← strip_padding bytes b0
  known ← sdes_known bytes (rtcp_count b0) len
  ok (record (new_packet sdes bytes) { knownformat = known })
