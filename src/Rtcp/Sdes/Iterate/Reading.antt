-- ===== src/Rtcp/Sdes/Iterate/Reading.antt =====
-- The nested loops that a user of RTCPSDESPacket writes, as RTPSources::ProcessRTCPCompoundPacket
-- and RTCPSDESPacket::Dump do (src/rtpsources.cpp, src/rtcpsdespacket.cpp), and what they collect.
use jrtplib.Prelude.{
  ℕ, zero, suc, true, false, List, [], ◌∷◌, none, some, length, Outcome, ok, fault, ◌>>=◌,
}
use jrtplib.Bytes.{bytes_at}
use jrtplib.Rtcp.Packet.{RtcpPacket}
use jrtplib.Rtcp.Sdes.Iterate.{
  ItemType, SdesPacket, start_iteration, goto_first_chunk, goto_next_chunk, get_chunk_ssrc,
  goto_first_item, goto_next_item, get_item_type, get_item_length, get_item_data,
}

abbrev pub SdesItem : Type 0
SdesItem = ItemType × List ℕ

unfoldable pub read_item : SdesPacket → Outcome SdesItem
read_item s = do
  itemtype ← get_item_type s
  len ← get_item_length s
  place ← get_item_data s
  elim place [
    | none ↦ ok (itemtype, [])
    | some at ↦ do itemdata ← bytes_at s.packet.data' at len; ok (itemtype, itemdata)
  ]

-- do { ... } while (GotoNextItem()), with the state behind it.
unfoldable pub read_items : ℕ → SdesPacket → Outcome (List SdesItem × SdesPacket)
read_items zero s = fault
read_items (suc fuel) s = do
  item ← read_item s
  next ← goto_next_item s
  elim next.0 [
    | false ↦ ok (item ∷ [], next.1)
    | true ↦ do rest ← read_items fuel next.1; ok (item ∷ rest.0, rest.1)
  ]

-- if (GotoFirstItem()) do { ... } while (GotoNextItem()).
unfoldable pub read_chunk : ℕ → SdesPacket → Outcome (List SdesItem × SdesPacket)
unfolding read_items
read_chunk fuel s = do
  first ← goto_first_item s
  elim first.0 [ false ↦ ok ([], first.1) | true ↦ read_items fuel first.1 ]

-- do { ... } while (GotoNextChunk()).
unfoldable pub read_chunks : ℕ → ℕ → SdesPacket → Outcome (List (ℕ × List SdesItem))
unfolding read_chunk
read_chunks zero fuel s = fault
read_chunks (suc rounds) fuel s = do
  ssrc ← get_chunk_ssrc s
  items ← read_chunk fuel s
  next ← goto_next_chunk fuel items.1
  elim next.0 [
    | false ↦ ok ((ssrc, items.0) ∷ [])
    | true ↦ do rest ← read_chunks rounds fuel next.1; ok ((ssrc, items.0) ∷ rest)
  ]

-- The whole iteration. A packet has at most 31 chunks, and fewer items than bytes.
unfoldable pub read_sdes : RtcpPacket → Outcome (List (ℕ × List SdesItem))
unfolding read_chunks
read_sdes p = do
  first ← goto_first_chunk (start_iteration p)
  elim first.0 [ false ↦ ok [] | true ↦ read_chunks 31 (length p.data') first.1 ]
