-- ===== src/Tests/CompoundBuilder.antt =====
-- RTCPCompoundPacketBuilder: an ordinary packet, and one that does not fit into its buffer.
use jrtplib.Prelude.{
  ◌<◌, ◌≡◌, ◌↔◌, ◌⊎◌, refl, true, false, List, [], ◌∷◌, some, map, All, length, arith, ok, fault,
}
use jrtplib.Rtcp.Packet.{RtcpPacket, sdes}
use jrtplib.Rtcp.Packet.Fields.{SenderInfo}
use jrtplib.Rtcp.Sdes.Iterate.{SdesPacket, cname}
use jrtplib.Rtcp.Sdes.Iterate.Reading.{read_sdes}
use jrtplib.Rtcp.Sdes.Iterate.Private.{read_priv, read_priv-item}
use jrtplib.Rtcp.Compound.{make_packet}
use jrtplib.Rtcp.CompoundBuilder.{
  SdesSource, new_builder, init_build, init_build_external, report_bytes, sdes_bytes,
  sdes_bytes_with_extra_source, sdes_bytes_with_extra_item, add_sdes_item,
}
use jrtplib.Rtcp.CompoundBuilder.Reports.{start_receiver_report, start_sender_report}
use jrtplib.Rtcp.CompoundBuilder.Descriptions.{add_sdes_source, add_sdes_normal_item}
use jrtplib.Rtcp.CompoundBuilder.Farewell.{add_bye_packet, add_app_packet, zeros}
use jrtplib.Rtcp.CompoundBuilder.End.{
  end_build, parts, built_length, sdes_part, report_parts, sdes_parts,
}
use jrtplib.Rtcp.CompoundBuilder.SdesSound.{source_content}
use jrtplib.Rtcp.CompoundBuilder.WellFormed.{
  WellFormed, Call, CallFits, perform, run_calls, init_call, init_external_call,
  receiver_report_call, sender_report_call, sdes_source_call, sdes_normal_item_call, bye_call,
  app_call,
}
use jrtplib.Rtcp.CompoundBuilder.WellFormed.Runs.{run_calls-WellFormed}
use jrtplib.Rtcp.CompoundBuilder.Room.{Bounded}
use jrtplib.Rtcp.CompoundBuilder.Room.Kept.{run_calls-Bounded}
use jrtplib.Rtcp.CompoundBuilder.RoundTrip.{Built, end_build-Built}
use jrtplib.Rtcp.CompoundBuilder.Overflow.{end_build_overflow}
use jrtplib.Rtcp.CompoundBuilder.ReadBack.{sdes_part_read}

-- A receiver report, a CNAME and a BYE packet.
abbrev calls : List Call
calls =
    init_call 600
    ∷ receiver_report_call 7
    ∷ sdes_source_call true 7
    ∷ sdes_normal_item_call true cname (97 ∷ 98 ∷ 99 ∷ [])
    ∷ bye_call true (7 ∷ []) []
    ∷ []

calls_fit : All CallFits calls
calls_fit = (tt, (tt, (tt, (omega arith, (omega arith, tt)))))

run_calls-WellFormed_example : WellFormed (run_calls new_builder calls)
run_calls-WellFormed_example = run_calls-WellFormed calls calls_fit

run_calls-Bounded_example : Bounded (run_calls new_builder calls)
run_calls-Bounded_example = run_calls-Bounded calls calls_fit

calls_build :
    ((run_calls new_builder calls).arebuilding ≡ true)
    × ((run_calls new_builder calls).report.headerlength ≡ 4)
    × ((run_calls new_builder calls).external ≡ false)
    × (built_length (run_calls new_builder calls) ≡ 32)
    × (length (parts (run_calls new_builder calls)) ≡ 3)
unfolding run_calls perform init_build start_receiver_report add_sdes_source add_sdes_normal_item
    add_bye_packet report_bytes sdes_bytes sdes_bytes_with_extra_source sdes_bytes_with_extra_item
    add_sdes_item parts report_parts sdes_parts
calls_build = (refl, refl, refl, refl, refl)

end_build-Built_example : Built (end_build (run_calls new_builder calls) true 3)
end_build-Built_example =
    end_build-Built calls 3 calls_fit calls_build.0 (λ e. omega (arith, e, calls_build.1))
      (ground (arith, calls_build.2)) (omega (arith, calls_build.3)) (omega (arith, calls_build.4))

-- An APP packet fills a buffer of 600 bytes; the first SDES source and then a sender report are added all the same.
abbrev no_info : SenderInfo
no_info = record {
  ntptime_msw = 0;
  ntptime_lsw = 0;
  rtptimestamp = 0;
  packetcount = 0;
  octetcount = 0;
}

abbrev overflow_calls : List Call
overflow_calls =
    init_external_call 600
    ∷ app_call true 0 7 (97 ∷ 98 ∷ 99 ∷ 100 ∷ []) (zeros 588)
    ∷ sdes_source_call true 7
    ∷ sender_report_call 7 no_info
    ∷ []

overflow_calls_fit : All CallFits overflow_calls
overflow_calls_fit = (tt, (refl, (tt, (tt, tt))))

overflow_build :
    ((run_calls new_builder overflow_calls).arebuilding ≡ true)
    × ((run_calls new_builder overflow_calls).report.headerlength ≡ 24)
    × ((run_calls new_builder overflow_calls).external ≡ true)
    × ((run_calls new_builder overflow_calls).maximumpacketsize ≡ 600)
    × (built_length (run_calls new_builder overflow_calls) ≡ 640)
    × (length (parts (run_calls new_builder overflow_calls)) ≡ 3)
unfolding run_calls perform init_build_external start_sender_report add_sdes_source add_app_packet
    report_bytes sdes_bytes sdes_bytes_with_extra_source parts report_parts sdes_parts
overflow_build = (refl, refl, refl, refl, refl, refl)

end_build_overflow_example :
    (((end_build (run_calls new_builder overflow_calls) true 3).1 ≡ fault) ↔ (
      ((run_calls new_builder overflow_calls).external ≡ true)
      × ((run_calls new_builder overflow_calls).maximumpacketsize
          < built_length (run_calls new_builder overflow_calls))))
    × (((end_build (run_calls new_builder overflow_calls) true 3).1 ≡ fault)
        ⊎ ((end_build (run_calls new_builder overflow_calls) true 3).1 ≡ ok tt))
end_build_overflow_example =
    end_build_overflow overflow_calls 3 overflow_calls_fit overflow_build.0
      (λ e. omega (arith, e, overflow_build.1)) (omega (arith, overflow_build.5))

overflow_faults : (end_build (run_calls new_builder overflow_calls) true 3).1 ≡ fault
overflow_faults =
    (end_build_overflow overflow_calls 3 overflow_calls_fit overflow_build.0
        (λ e. omega (arith, e, overflow_build.1)) (omega (arith, overflow_build.5))).0.1
      (overflow_build.2, omega (arith, overflow_build.3, overflow_build.4))

-- A source with a CNAME, and one without items.
abbrev two_sources : List SdesSource
two_sources =
    record { ssrc = 7; items = (1 ∷ 3 ∷ 97 ∷ 98 ∷ 99 ∷ []) ∷ []; totalitemsize = 5 }
    ∷ record { ssrc = 8; items = []; totalitemsize = 0 }
    ∷ []

sdes_part_read_example :
    (p : RtcpPacket) × (make_packet 202 (sdes_part two_sources).1 ≡ ok p)
    × (read_sdes p ≡ ok (map source_content two_sources))
sdes_part_read_example =
    sdes_part_read two_sources ((refl, ((0, 97 ∷ 98 ∷ 99 ∷ [], refl), tt)), ((refl, tt), tt))
      (omega arith) (omega arith)

-- A private item with prefix "a" and value "bc" behind the header and the SSRC.
abbrev private_packet : SdesPacket
private_packet = record {
  packet = record {
    packettype = sdes;
    data' = 129 ∷ 202 ∷ 0 ∷ 3 ∷ 0 ∷ 0 ∷ 0 ∷ 7 ∷ 8 ∷ 4 ∷ 1 ∷ 97 ∷ 98 ∷ 99 ∷ 0 ∷ 0 ∷ [];
    knownformat = true;
    reasonoffset = 0;
    appdatalen = 0;
  };
  currentchunk = some 4;
  curchunknum = 1;
  itemoffset = 4;
}

read_priv-item_example : read_priv private_packet ≡ ok (97 ∷ [], 98 ∷ 99 ∷ [])
read_priv-item_example =
    read_priv-item private_packet 4 (129 ∷ 202 ∷ 0 ∷ 3 ∷ 0 ∷ 0 ∷ 0 ∷ 7 ∷ []) (97 ∷ [])
      (98 ∷ 99 ∷ []) (0 ∷ 0 ∷ []) refl refl refl refl
