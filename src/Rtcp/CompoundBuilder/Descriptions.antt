-- ===== src/Rtcp/CompoundBuilder/Descriptions.antt =====
-- AddSDESSource, AddSDESNormalItem and AddSDESPrivateItem of RTCPCompoundPacketBuilder
-- (src/rtcpcompoundpacketbuilder.cpp). A pointer and a length are the list of the bytes there.
use jrtplib.Prelude.{
  ℕ, ◌+◌, ◌%◌, Bool, not, List, ◌∷◌, ◌++◌, Option, none, some, length, ltb, ◌==◌, if◌then◌else◌,
  out_of_mem, rtcpcomppackbuilder_notbuilding, rtcpcomppackbuilder_notenoughbytesleft,
  rtcpcomppackbuilder_nocurrentsource, rtcpcomppackbuilder_invaliditemtype,
  rtcpcomppackbuilder_totalitemlengthtoobig,
}
use jrtplib.Rtcp.Sdes.Iterate.{
  ItemType, cname, name, email, phone, loc, tool, note, priv, none_item, unknown_item,
}
use jrtplib.Rtcp.CompoundBuilder.{
  CompoundBuilder, report_bytes, sdes_bytes_with_extra_item, sdes_bytes_with_extra_source, add_ssrc,
  add_sdes_item, Step, done, refuse,
}

abbrev pub other_than_sdes : CompoundBuilder → ℕ
other_than_sdes b = b.byesize + b.appsize + report_bytes b.report

unfoldable pub add_sdes_source : CompoundBuilder → Bool → ℕ → Step
add_sdes_source b given ssrc =
    if not b.arebuilding
    then refuse b rtcpcomppackbuilder_notbuilding
    else if ltb b.maximumpacketsize (other_than_sdes b + sdes_bytes_with_extra_source b.sdessources)
    then refuse b rtcpcomppackbuilder_notenoughbytesleft
    else if not given
    then refuse b out_of_mem
    else done (record b { sdessources = add_ssrc b.sdessources ssrc })

-- The switch of AddSDESNormalItem, on the values of rtpdefines.h.
abbrev pub normal_item_id : ItemType → Option ℕ
normal_item_id t = elim t [
  | none_item ↦ none
  | cname ↦ some 1
  | name ↦ some 2
  | email ↦ some 3
  | phone ↦ some 4
  | loc ↦ some 5
  | tool ↦ some 6
  | note ↦ some 7
  | priv ↦ none
  | unknown_item ↦ none
]

-- Both kinds of item once their arguments are checked: the size, the memory, and the new item.
abbrev pub add_item_bytes : CompoundBuilder → Bool → ℕ → List ℕ → Step
add_item_bytes b given itemid value =
    if ltb b.maximumpacketsize
      (sdes_bytes_with_extra_item b.sdessources (length value) + other_than_sdes b)
    then refuse b rtcpcomppackbuilder_notenoughbytesleft
    else if not given
    then refuse b out_of_mem
    else done (record b {
      sdessources = add_sdes_item b.sdessources (itemid ∷ (length value % 256) ∷ value);
    })

unfoldable pub add_sdes_normal_item : CompoundBuilder → Bool → ItemType → List ℕ → Step
add_sdes_normal_item b given t itemdata =
    if not b.arebuilding
    then refuse b rtcpcomppackbuilder_notbuilding
    else if length b.sdessources == 0
    then refuse b rtcpcomppackbuilder_nocurrentsource
    else elim (normal_item_id t) [
      | none ↦ refuse b rtcpcomppackbuilder_invaliditemtype
      | some itemid ↦ add_item_bytes b given itemid itemdata
    ]

unfoldable pub add_sdes_private_item : CompoundBuilder → Bool → List ℕ → List ℕ → Step
add_sdes_private_item b given prefixdata valuedata =
    if not b.arebuilding
    then refuse b rtcpcomppackbuilder_notbuilding
    else if length b.sdessources == 0
    then refuse b rtcpcomppackbuilder_nocurrentsource
    else if ltb 255 (length prefixdata + 1 + length valuedata)
    then refuse b rtcpcomppackbuilder_totalitemlengthtoobig
    else add_item_bytes b given 8 ((length prefixdata % 256) ∷ (prefixdata ++ valuedata))
