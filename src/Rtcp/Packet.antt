-- ===== src/Rtcp/Packet.antt =====
-- The constructors of RTCPPacket and its subclasses (src/rtcppacket.h, src/rtcpsrpacket.h, src/rtcprrpacket.h,
-- src/rtcpbyepacket.h, src/rtcpapppacket.h and their .cpp files), but for RTCPSDESPacket.
-- The memory of a packet is its own `datalen` bytes: a read behind them counts as a fault, also
-- where the compound packet goes on.
pub mod Fields
pub mod Reads
pub mod Reports
pub mod Leave
use jrtplib.Prelude.{
  ℕ, ◌+◌, ◌-◌, ◌*◌, ◌/◌, ◌%◌, ◌^◌, Bool, true, false, not, ◌||◌, List, [], ◌∷◌, Option, none, some,
  length, ltb, leb, ◌==◌, if◌then◌else◌, Outcome, ok, err, fault, ◌>>=◌,
}
use jrtplib.Bytes.{byte_at, u16_at, u32_at, bytes_at}

pub data PacketType : Type 0 where
  sr rr sdes bye app unknown : PacketType

-- `reasonoffset` is the BYE packet's own member, `appdatalen` the APP packet's.
pub record RtcpPacket : Type 0 where
  pub packettype : PacketType
  pub data' : List ℕ
  pub knownformat : Bool
  pub reasonoffset : ℕ
  pub appdatalen : ℕ

-- The bit fields of the first byte of an RTCPCommonHeader.
abbrev pub rtcp_version : ℕ → ℕ
rtcp_version b = b / 64

abbrev pub rtcp_padding : ℕ → Bool
rtcp_padding b = b / 32 % 2 == 1

abbrev pub rtcp_count : ℕ → ℕ
rtcp_count b = b % 32

-- The base class's constructor.
abbrev pub new_packet : PacketType → List ℕ → RtcpPacket
new_packet t bytes = record {
  packettype = t;
  data' = bytes;
  knownformat = false;
  reasonoffset = 0;
  appdatalen = 0;
}

-- The length without `padcount` bytes of padding, `none` if the count is not valid.
abbrev pub without_padding : ℕ → ℕ → Option ℕ
without_padding len padcount =
    if not (padcount % 4 == 0)
    then none
    else if leb len padcount
    then none
    else some (len - padcount)

-- RTCPUnknownPacket has no format to check.
abbrev pub new_unknown : List ℕ → RtcpPacket
new_unknown bytes = record (new_packet unknown bytes) { knownformat = true }

-- How each constructor starts: the length without the padding, `none` where it returns.
unfoldable pub strip_padding : List ℕ → ℕ → Outcome (Option ℕ)
strip_padding bytes b0 =
    if rtcp_padding b0
    then (do
      padcount ← byte_at bytes (length bytes - 1)
      ok (without_padding (length bytes) padcount))
    else ok (some (length bytes))

-- RTCPRRPacket and RTCPSRPacket.
abbrev pub report_known : ℕ → ℕ → Option ℕ → Bool
report_known expectedlength count none = false
report_known expectedlength count (some len) = (expectedlength + 24 * count) == len

unfoldable pub new_rr : List ℕ → Outcome RtcpPacket
unfolding strip_padding byte_at
new_rr bytes = do
  b0 ← byte_at bytes 0
  len ← strip_padding bytes b0
  ok (record (new_packet rr bytes) { knownformat = report_known 8 (rtcp_count b0) len })

unfoldable pub new_sr : List ℕ → Outcome RtcpPacket
unfolding strip_padding byte_at
new_sr bytes = do
  b0 ← byte_at bytes 0
  len ← strip_padding bytes b0
  ok (record (new_packet sr bytes) { knownformat = report_known 28 (rtcp_count b0) len })

-- The reason for leaving, from `ssrclen` on.
unfoldable pub leave_reason : RtcpPacket → ℕ → ℕ → Outcome RtcpPacket
leave_reason p ssrclen len =
    if ltb len ssrclen
    then ok p
    else if ltb ssrclen len
    then (do
      reaslen ← byte_at p.data' ssrclen
      ok (
          if ltb (len - ssrclen - 1) reaslen
          then p
          else record p { reasonoffset = ssrclen; knownformat = true }))
    else ok (record p { knownformat = true })

abbrev pub bye_rest : RtcpPacket → ℕ → Option ℕ → Outcome RtcpPacket
unfolding leave_reason
bye_rest p count none = ok p
bye_rest p count (some len) = leave_reason p (count * 4 + 4) len

unfoldable pub new_bye : List ℕ → Outcome RtcpPacket
unfolding strip_padding byte_at bye_rest
new_bye bytes = do
  b0 ← byte_at bytes 0
  len ← strip_padding bytes b0
  bye_rest (new_packet bye bytes) (rtcp_count b0) len

abbrev pub app_rest : RtcpPacket → Option ℕ → RtcpPacket
app_rest p none = p
app_rest p (some len) =
    if ltb len 12 then p else record p { appdatalen = len - 12; knownformat = true }

unfoldable pub new_app : List ℕ → Outcome RtcpPacket
unfolding strip_padding byte_at
new_app bytes = do
  b0 ← byte_at bytes 0
  len ← strip_padding bytes b0
  ok (app_rest (new_packet app bytes) len)
