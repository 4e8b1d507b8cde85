-- ===== src/Rtcp/Packet/Fields.antt =====
-- The accessors of RTCPSRPacket, RTCPRRPacket, RTCPBYEPacket and RTCPAPPPacket (the .h files).
use jrtplib.Prelude.{
  ℕ, ◌+◌, ◌-◌, ◌*◌, ◌^◌, not, ◌||◌, List, [], ltb, ◌==◌, if◌then◌else◌, Outcome, ok, ◌>>=◌,
}
use jrtplib.Bytes.{byte_at, u32_at, bytes_at}
use jrtplib.Rtcp.Packet.{PacketType, RtcpPacket, rtcp_count}

-- What the accessors of the reports and of BYE and APP packets read.
unfoldable pub get_count : RtcpPacket → Outcome ℕ
get_count p = if not p.knownformat then ok 0 else (do b0 ← byte_at p.data' 0; ok (rtcp_count b0))

unfoldable pub get_sender_ssrc : RtcpPacket → Outcome ℕ
get_sender_ssrc p = if not p.knownformat then ok 0 else u32_at p.data' 4

-- A sender report's own part: NTP time, RTP time and the two counts.
pub record SenderInfo : Type 0 where
  pub ntptime_msw : ℕ
  pub ntptime_lsw : ℕ
  pub rtptimestamp : ℕ
  pub packetcount : ℕ
  pub octetcount : ℕ

unfoldable pub get_sender_info : RtcpPacket → Outcome SenderInfo
get_sender_info p =
    if not p.knownformat
    then ok (record {
      ntptime_msw = 0;
      ntptime_lsw = 0;
      rtptimestamp = 0;
      packetcount = 0;
      octetcount = 0;
    })
    else (do
      msw ← u32_at p.data' 8
      lsw ← u32_at p.data' 12
      timestamp ← u32_at p.data' 16
      packets ← u32_at p.data' 20
      octets ← u32_at p.data' 24
      ok (record {
        ntptime_msw = msw;
        ntptime_lsw = lsw;
        rtptimestamp = timestamp;
        packetcount = packets;
        octetcount = octets;
      }))

-- GotoReport.
unfoldable pub goto_report : RtcpPacket → ℕ → ℕ
goto_report p index = elim p.packettype [ PacketType.sr ↦ 28 + index * 24 | _ ↦ 8 + index * 24 ]

-- The 32-bit field at `offset` of a reception report block.
unfoldable pub report_field : RtcpPacket → ℕ → ℕ → Outcome ℕ
unfolding goto_report
report_field p offset index =
    if not p.knownformat then ok 0 else u32_at p.data' (goto_report p index + offset)

abbrev pub get_ssrc : RtcpPacket → ℕ → Outcome ℕ
get_ssrc p index = report_field p 0 index

abbrev pub get_extended_highest_sequence_number : RtcpPacket → ℕ → Outcome ℕ
get_extended_highest_sequence_number p index = report_field p 8 index

abbrev pub get_jitter : RtcpPacket → ℕ → Outcome ℕ
get_jitter p index = report_field p 12 index

abbrev pub get_lsr : RtcpPacket → ℕ → Outcome ℕ
get_lsr p index = report_field p 16 index

abbrev pub get_dlsr : RtcpPacket → ℕ → Outcome ℕ
get_dlsr p index = report_field p 20 index

unfoldable pub get_fraction_lost : RtcpPacket → ℕ → Outcome ℕ
unfolding goto_report
get_fraction_lost p index =
    if not p.knownformat then ok 0 else byte_at p.data' (goto_report p index + 4)

-- A signed number: `pos n` is n, `negsuc n` is -(n + 1).
pub data ℤ : Type 0 where
  pos negsuc : ℕ → ℤ

-- The 24 bits as a number in two's complement.
abbrev pub signed24 : ℕ → ℤ
signed24 count =
    if ltb count (2 ^ 23) then pos count else negsuc (2 ^ 32 - 1 - (count + 0xFF000000))

unfoldable pub get_lost_packet_count : RtcpPacket → ℕ → Outcome ℤ
unfolding goto_report
get_lost_packet_count p index = if not p.knownformat then ok (pos 0) else (do
  high ← byte_at p.data' (goto_report p index + 5)
  middle ← byte_at p.data' (goto_report p index + 6)
  low ← byte_at p.data' (goto_report p index + 7)
  ok (signed24 (low + middle * 256 + high * 65536)))

-- BYE.
unfoldable pub get_bye_ssrc : RtcpPacket → ℕ → Outcome ℕ
get_bye_ssrc p index = if not p.knownformat then ok 0 else u32_at p.data' (4 + 4 * index)

unfoldable pub get_reason_length : RtcpPacket → Outcome ℕ
get_reason_length p =
    if not p.knownformat || p.reasonoffset == 0 then ok 0 else byte_at p.data' p.reasonoffset

-- The `GetReasonLength()` bytes at `GetReasonData()`, which is null if there are none.
unfoldable pub get_reason : RtcpPacket → Outcome (List ℕ)
unfolding get_reason_length
get_reason p = do
  n ← get_reason_length p
  if n == 0 then ok [] else bytes_at p.data' (p.reasonoffset + 1) n

-- APP: the name's four bytes, and the data.
unfoldable pub get_name : RtcpPacket → Outcome (List ℕ)
get_name p = if not p.knownformat then ok [] else bytes_at p.data' 8 4

unfoldable pub get_app_data : RtcpPacket → Outcome (List ℕ)
get_app_data p =
    if not p.knownformat || p.appdatalen == 0 then ok [] else bytes_at p.data' 12 p.appdatalen
