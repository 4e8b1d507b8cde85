-- ===== src/Rtcp/CompoundBuilder/Farewell.antt =====
-- AddBYEPacket and AddAPPPacket of RTCPCompoundPacketBuilder (src/rtcpcompoundpacketbuilder.cpp).
-- A pointer and a length are the list of the bytes there.
use jrtplib.Prelude.{
  ℕ, zero, suc, ◌+◌, ◌-◌, ◌*◌, ◌/◌, ◌%◌, Bool, not, List, [], ◌∷◌, ◌++◌, length, ltb, ◌==◌,
  if◌then◌else◌, out_of_mem, rtcpcomppackbuilder_notbuilding,
  rtcpcomppackbuilder_notenoughbytesleft, rtcpcomppackbuilder_toomanyssrcs,
  rtcpcomppackbuilder_illegalsubtype, rtcpcomppackbuilder_illegalappdatalength,
  rtcpcomppackbuilder_appdatalentoobig,
}
use jrtplib.Bytes.{put_u16, put_u32}
use jrtplib.Rtcp.CompoundBuilder.{
  CompoundBuilder, report_bytes, sdes_bytes, pad4, Step, done, refuse,
}

-- A packet of this count and type: version 2, no padding, the length of the whole in words less
-- one, cut to 16 bits.
unfoldable pub packet_bytes : ℕ → ℕ → List ℕ → List ℕ
packet_bytes count packettype body =
    (128 + count % 32) ∷ packettype ∷ (put_u16 ((4 + length body) / 4 - 1) ++ body)

abbrev pub zeros : ℕ → List ℕ
zeros zero = []
zeros (suc n) = 0 ∷ zeros n

unfoldable pub put_all : List ℕ → List ℕ
put_all [] = []
put_all (n ∷ ns) = put_u32 n ++ put_all ns

-- How many bytes a packet takes that is `n` bytes long without its padding.
abbrev pub padding_of : ℕ → ℕ
padding_of n = pad4 n - n

-- The reason for leaving with its length, and zeros up to a multiple of four.
abbrev pub reason_bytes : List ℕ → List ℕ
reason_bytes [] = []
reason_bytes (c ∷ cs) =
    (length (c ∷ cs) % 256) ∷ ((c ∷ cs) ++ zeros (padding_of (1 + length (c ∷ cs))))

abbrev pub built_bytes : CompoundBuilder → ℕ
built_bytes b = b.appsize + b.byesize + sdes_bytes b.sdessources + report_bytes b.report

abbrev pub bye_size : List ℕ → List ℕ → ℕ
bye_size ssrcs reason =
    if length reason == 0
    then 4 + 4 * length ssrcs
    else pad4 (4 + 4 * length ssrcs + 1 + length reason)

unfoldable pub add_bye_packet : CompoundBuilder → Bool → List ℕ → List ℕ → Step
add_bye_packet b given ssrcs reason =
    if not b.arebuilding
    then refuse b rtcpcomppackbuilder_notbuilding
    else if ltb 31 (length ssrcs)
    then refuse b rtcpcomppackbuilder_toomanyssrcs
    else if ltb b.maximumpacketsize (built_bytes b + bye_size ssrcs reason)
    then refuse b rtcpcomppackbuilder_notenoughbytesleft
    else if not given
    then refuse b out_of_mem
    else done (record b {
      byepackets =
          b.byepackets
          ++ (packet_bytes (length ssrcs) 203 (put_all ssrcs ++ reason_bytes reason) ∷ []);
      byesize = b.byesize + bye_size ssrcs reason;
    })

unfoldable pub add_app_packet :
    CompoundBuilder → Bool → (subtype ssrc : ℕ) → (name appdata : List ℕ) → Step
add_app_packet b given subtype ssrc name appdata =
    if not b.arebuilding
    then refuse b rtcpcomppackbuilder_notbuilding
    else if ltb 31 subtype
    then refuse b rtcpcomppackbuilder_illegalsubtype
    else if not (length appdata % 4 == 0)
    then refuse b rtcpcomppackbuilder_illegalappdatalength
    else if ltb 65535 (length appdata / 4 + 2)
    then refuse b rtcpcomppackbuilder_appdatalentoobig
    else if ltb b.maximumpacketsize (built_bytes b + (12 + length appdata))
    then refuse b rtcpcomppackbuilder_notenoughbytesleft
    else if not given
    then refuse b out_of_mem
    else done (record b {
      apppackets =
          b.apppackets ++ (packet_bytes subtype 204 (put_u32 ssrc ++ (name ++ appdata)) ∷ []);
      appsize = b.appsize + (12 + length appdata);
    })
