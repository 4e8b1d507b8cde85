-- ===== src/Rtcp/Sdes/Iterate.antt =====
-- The iteration over the chunks and items of an RTCPSDESPacket (src/rtcpsdespacket.h).
-- A pointer into the packet is a place in its data; every read goes through the memory.
pub mod Reading
pub mod Items
pub mod Visits
pub mod Private
use jrtplib.Prelude.{
  ℕ, zero, suc, ◌+◌, ◌-◌, ◌%◌, Bool, true, false, not, ◌||◌, List, [], ◌∷◌, Option, none, some, ltb,
  ◌==◌, if◌then◌else◌, Outcome, ok, fault, ◌>>=◌,
}
use jrtplib.Bytes.{byte_at, u32_at}
use jrtplib.Rtcp.Packet.{RtcpPacket}
use jrtplib.Rtcp.Packet.Fields.{get_count}

pub data ItemType : Type 0 where
  none_item cname name email phone loc tool note priv unknown_item : ItemType

-- `currentchunk` is none where the source's pointer is null.
pub record SdesPacket : Type 0 where
  pub packet : RtcpPacket
  pub currentchunk : Option ℕ
  pub curchunknum : ℕ
  pub itemoffset : ℕ

abbrev pub start_iteration : RtcpPacket → SdesPacket
start_iteration p = record { packet = p; currentchunk = none; curchunknum = 0; itemoffset = 0 }

unfoldable pub get_chunk_count : SdesPacket → Outcome ℕ
get_chunk_count s = get_count s.packet

unfoldable pub goto_first_chunk : SdesPacket → Outcome (Bool × SdesPacket)
unfolding get_chunk_count
goto_first_chunk s = do
  n ← get_chunk_count s
  ok (
      if n == 0
      then (false, record s { currentchunk = none })
      else (true, record s { currentchunk = some 4; curchunknum = 1; itemoffset = 4 }))

-- The loop of GotoNextChunk: the offset of the zero byte behind the items.
unfoldable pub skip_items : ℕ → List ℕ → ℕ → ℕ → Outcome ℕ
skip_items zero bytes chunk offset = fault
skip_items (suc fuel) bytes chunk offset = do
  sdesid ← byte_at bytes (chunk + offset)
  elim (sdesid == 0) [
    | true ↦ ok offset
    | false ↦ do
      len ← byte_at bytes (chunk + offset + 1)
      skip_items fuel bytes chunk (offset + 2 + len)
  ]

-- Past the zero byte to the next multiple of four.
abbrev pub pad_offset : ℕ → ℕ
pad_offset offset = if offset % 4 == 0 then offset else offset + (4 - offset % 4)

abbrev pub next_chunk : ℕ → SdesPacket → ℕ → Outcome (Bool × SdesPacket)
unfolding skip_items
next_chunk fuel s chunk = do
  offset ← skip_items fuel s.packet.data' chunk 4
  ok (
    true,
    record s {
      currentchunk = some (chunk + pad_offset (offset + 1));
      curchunknum = s.curchunknum + 1;
      itemoffset = 4;
    },
  )

unfoldable pub goto_next_chunk : ℕ → SdesPacket → Outcome (Bool × SdesPacket)
unfolding get_chunk_count skip_items
goto_next_chunk fuel s = if not s.packet.knownformat then ok (false, s) else elim s.currentchunk [
  | none ↦ ok (false, s)
  | some chunk ↦ do
    n ← get_chunk_count s
    if s.curchunknum == n then ok (false, s) else next_chunk fuel s chunk
]

-- The accessors of the current chunk and item start alike: `d` where the format is not known or
-- there is no chunk.
abbrev pub at_chunk {ℓ} : {A : Type ℓ} → SdesPacket → A → (ℕ → Outcome A) → Outcome A
at_chunk s d next =
    if not s.packet.knownformat
    then ok d
    else elim s.currentchunk [ none ↦ ok d | some chunk ↦ next chunk ]

unfoldable pub get_chunk_ssrc : SdesPacket → Outcome ℕ
get_chunk_ssrc s = at_chunk s 0 (λ chunk. u32_at s.packet.data' chunk)

unfoldable pub goto_first_item : SdesPacket → Outcome (Bool × SdesPacket)
goto_first_item s =
    at_chunk s (false, s)
      (λ chunk. do
        sdesid ← byte_at s.packet.data' (chunk + 4)
        ok (not (sdesid == 0), record s { itemoffset = 4 }))

-- The item behind the current one of `length'` bytes.
abbrev pub next_item : SdesPacket → ℕ → Outcome (Bool × SdesPacket)
next_item s chunk = do
  length' ← byte_at s.packet.data' (chunk + s.itemoffset + 1)
  sdesid ← byte_at s.packet.data' (chunk + (s.itemoffset + 2 + length'))
  ok (
      if sdesid == 0
      then (false, s)
      else (true, record s { itemoffset = s.itemoffset + 2 + length' }))

unfoldable pub goto_next_item : SdesPacket → Outcome (Bool × SdesPacket)
goto_next_item s =
    at_chunk s (false, s)
      (λ chunk. do
        sdesid ← byte_at s.packet.data' (chunk + s.itemoffset)
        if sdesid == 0 then ok (false, s) else next_item s chunk)

-- The switch of GetItemType, on the values of rtpdefines.h.
abbrev pub item_type : ℕ → ItemType
item_type sdesid =
    if sdesid == 0
    then none_item
    else if sdesid == 1
    then cname
    else if sdesid == 2
    then name
    else if sdesid == 3
    then email
    else if sdesid == 4
    then phone
    else if sdesid == 5
    then loc
    else if sdesid == 6
    then tool
    else if sdesid == 7
    then note
    else if sdesid == 8
    then priv
    else unknown_item

unfoldable pub get_item_type : SdesPacket → Outcome ItemType
get_item_type s =
    at_chunk s none_item
      (λ chunk. do sdesid ← byte_at s.packet.data' (chunk + s.itemoffset); ok (item_type sdesid))

-- With no format or chunk the source returns `None`, which is 0.
unfoldable pub get_item_length : SdesPacket → Outcome ℕ
get_item_length s = at_chunk s 0 (λ chunk. do
  sdesid ← byte_at s.packet.data' (chunk + s.itemoffset)
  if sdesid == 0 then ok 0 else byte_at s.packet.data' (chunk + s.itemoffset + 1))

-- The place of the item's data, none for the null pointer.
unfoldable pub get_item_data : SdesPacket → Outcome (Option ℕ)
get_item_data s = at_chunk s none (λ chunk. do
  sdesid ← byte_at s.packet.data' (chunk + s.itemoffset)
  ok (if sdesid == 0 then none else some (chunk + s.itemoffset + 2)))

-- How the four accessors of a private item start: the item's length and the prefix's, none where
-- they return 0.
unfoldable pub priv_lengths : SdesPacket → ℕ → Outcome (Option (ℕ × ℕ))
priv_lengths s chunk = do
  sdesid ← byte_at s.packet.data' (chunk + s.itemoffset)
  if not (sdesid == 8) then ok none else (do
    length' ← byte_at s.packet.data' (chunk + s.itemoffset + 1)
    if length' == 0 then ok none else (do
      prefixlength ← byte_at s.packet.data' (chunk + s.itemoffset + 2)
      ok (if ltb (length' - 1) prefixlength then none else some (length', prefixlength))))

-- What such an accessor returns.
abbrev pub at_priv {ℓ} : {A : Type ℓ} → SdesPacket → A → (ℕ → ℕ → ℕ → A) → Outcome A
unfolding priv_lengths
at_priv s d get = at_chunk s d (λ chunk. do
  lengths ← priv_lengths s chunk
  elim lengths [ none ↦ ok d | some (length', prefixlength) ↦ ok (get chunk length' prefixlength) ])

unfoldable pub get_priv_prefix_length : SdesPacket → Outcome ℕ
unfolding priv_lengths
get_priv_prefix_length s = at_priv s 0 (λ chunk length' prefixlength. prefixlength)

unfoldable pub get_priv_prefix_data : SdesPacket → Outcome (Option ℕ)
unfolding priv_lengths
get_priv_prefix_data s = at_priv s none (λ chunk length' prefixlength.
    if prefixlength == 0 then none else some (chunk + s.itemoffset + 2 + 1))

unfoldable pub get_priv_value_length : SdesPacket → Outcome ℕ
unfolding priv_lengths
get_priv_value_length s = at_priv s 0 (λ chunk length' prefixlength. length' - prefixlength - 1)

unfoldable pub get_priv_value_data : SdesPacket → Outcome (Option ℕ)
unfolding priv_lengths
get_priv_value_data s = at_priv s none (λ chunk length' prefixlength.
    if length' - prefixlength - 1 == 0
    then none
    else some (chunk + s.itemoffset + 2 + 1 + prefixlength))
