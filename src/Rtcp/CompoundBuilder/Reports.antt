-- ===== src/Rtcp/CompoundBuilder/Reports.antt =====
-- StartSenderReport, StartReceiverReport and AddReportBlock of RTCPCompoundPacketBuilder
-- (src/rtcpcompoundpacketbuilder.cpp).
use jrtplib.Prelude.{
  ℕ, ◌+◌, ◌-◌, ◌/◌, ◌%◌, ◌^◌, Bool, true, false, not, List, [], ◌∷◌, ◌++◌, ltb, ◌==◌, if◌then◌else◌,
  out_of_mem, rtcpcomppackbuilder_notbuilding, rtcpcomppackbuilder_alreadygotreport,
  rtcpcomppackbuilder_notenoughbytesleft, rtcpcomppackbuilder_reportnotstarted,
}
use jrtplib.Bytes.{put_u32}
use jrtplib.Rtcp.Packet.Fields.{ℤ, pos, negsuc, SenderInfo}
use jrtplib.Rtcp.CompoundBuilder.{
  CompoundBuilder, sdes_bytes, report_bytes_with_extra_block, Step, done, refuse,
}

-- A subtraction of `size_t` values wraps around.
abbrev pub size_minus : ℕ → ℕ → ℕ
size_minus a b = if ltb a b then 2 ^ 64 + a - b else a - b

abbrev pub other_than_report : CompoundBuilder → ℕ
other_than_report b = b.byesize + b.appsize + sdes_bytes b.sdessources

-- What the two calls that start a report have in common.
abbrev pub start_report : CompoundBuilder → Bool → ℕ → List ℕ → Step
start_report b is_sr headerlength headerdata =
    if not b.arebuilding
    then refuse b rtcpcomppackbuilder_notbuilding
    else if not (b.report.headerlength == 0)
    then refuse b rtcpcomppackbuilder_alreadygotreport
    else if ltb (size_minus b.maximumpacketsize (other_than_report b)) (4 + headerlength)
    then refuse b rtcpcomppackbuilder_notenoughbytesleft
    else done (record b {
      report = record b.report {
        is_sr = is_sr;
        headerdata = headerdata;
        headerlength = headerlength;
      };
    })

abbrev pub sender_info_data : SenderInfo → List ℕ
sender_info_data i =
    put_u32 i.ntptime_msw
    ++ (put_u32 i.ntptime_lsw
        ++ (put_u32 i.rtptimestamp ++ (put_u32 i.packetcount ++ put_u32 i.octetcount)))

unfoldable pub start_sender_report : CompoundBuilder → ℕ → SenderInfo → Step
start_sender_report b senderssrc info =
    start_report b true 24 (put_u32 senderssrc ++ sender_info_data info)

unfoldable pub start_receiver_report : CompoundBuilder → ℕ → Step
start_receiver_report b senderssrc = start_report b false 4 (put_u32 senderssrc)

-- The bits of an `int32_t` as a `uint32_t`.
abbrev pub word_of_int : ℤ → ℕ
word_of_int (pos n) = n % 2 ^ 32
word_of_int (negsuc n) = 2 ^ 32 - 1 - n % 2 ^ 32

pub record ReportBlock : Type 0 where
  pub ssrc : ℕ
  pub fractionlost : ℕ
  pub packetslost : ℤ
  pub exthighestseq : ℕ
  pub jitter : ℕ
  pub lsr : ℕ
  pub dlsr : ℕ

-- RTCPReceiverReport.
unfoldable pub block_data : ReportBlock → List ℕ
block_data r =
    let lost = word_of_int r.packetslost in
    put_u32 r.ssrc
    ++ ((r.fractionlost % 256)
        ∷ (lost / 65536 % 256)
        ∷ (lost / 256 % 256)
        ∷ (lost % 256)
        ∷ (put_u32 r.exthighestseq ++ (put_u32 r.jitter ++ (put_u32 r.lsr ++ put_u32 r.dlsr))))

unfoldable pub add_report_block : CompoundBuilder → Bool → ReportBlock → Step
add_report_block b given r =
    if not b.arebuilding
    then refuse b rtcpcomppackbuilder_notbuilding
    else if b.report.headerlength == 0
    then refuse b rtcpcomppackbuilder_reportnotstarted
    else if ltb b.maximumpacketsize (other_than_report b + report_bytes_with_extra_block b.report)
    then refuse b rtcpcomppackbuilder_notenoughbytesleft
    else if not given
    then refuse b out_of_mem
    else done (record b {
      report = record b.report { reportblocks = b.report.reportblocks ++ (block_data r ∷ []) };
    })
