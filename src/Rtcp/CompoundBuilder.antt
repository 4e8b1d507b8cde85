-- ===== src/Rtcp/CompoundBuilder.antt =====
-- The state of RTCPCompoundPacketBuilder and the bytes it reckons with
-- (src/rtcpcompoundpacketbuilder.h, src/rtcpcompoundpacketbuilder.cpp). A Buffer is the list of its
-- bytes. Whether RTPNew finds memory is an argument of each call that allocates.
-- RTP_SUPPORT_RTCPUNKNOWN is not set.
pub mod Reports
pub mod Descriptions
pub mod Farewell
pub mod End
pub mod Sound
pub mod SdesSound
pub mod WellFormed
pub mod Lengths
pub mod Room
pub mod Parts
pub mod RoundTrip
pub mod Overflow
pub mod ReadBack
use jrtplib.Prelude.{
  ℕ, zero, suc, ◌+◌, ◌-◌, ◌*◌, ◌/◌, ◌%◌, Bool, true, false, List, [], ◌∷◌, ◌++◌, Option, none, some,
  length, ltb, ◌==◌, if◌then◌else◌, Outcome, ok, err, ErrorCode,
  rtcpcomppackbuilder_alreadybuilding, rtcpcomppackbuilder_alreadybuilt,
  rtcpcomppackbuilder_maxpacketsizetoosmall, rtcpcomppackbuilder_buffersizetoosmall,
}
use jrtplib.Rtcp.Packet.{RtcpPacket}

-- `headerdata` is the part of the array that is filled, `headerlength` bytes.
pub record Report : Type 0 where
  pub is_sr : Bool
  pub headerdata : List ℕ
  pub headerlength : ℕ
  pub reportblocks : List (List ℕ)

pub record SdesSource : Type 0 where
  pub ssrc : ℕ
  pub items : List (List ℕ)
  pub totalitemsize : ℕ

-- `sdesit` stands at the last source. `compoundpacket` is none where the pointer is null.
pub record CompoundBuilder : Type 0 where
  pub maximumpacketsize : ℕ
  pub external : Bool
  pub arebuilding : Bool
  pub report : Report
  pub sdessources : List SdesSource
  pub byepackets : List (List ℕ)
  pub byesize : ℕ
  pub apppackets : List (List ℕ)
  pub appsize : ℕ
  pub compoundpacket : Option (List ℕ)
  pub compoundpacketlength : ℕ
  pub rtcppacklist : List RtcpPacket

abbrev pub no_report : Report
no_report = record { is_sr = false; headerdata = []; headerlength = 0; reportblocks = [] }

abbrev pub new_builder : CompoundBuilder
new_builder = record {
  maximumpacketsize = 0;
  external = false;
  arebuilding = false;
  report = no_report;
  sdessources = [];
  byepackets = [];
  byesize = 0;
  apppackets = [];
  appsize = 0;
  compoundpacket = none;
  compoundpacketlength = 0;
  rtcppacklist = [];
}

abbrev pub clear_build_buffers : CompoundBuilder → CompoundBuilder
clear_build_buffers b = record b {
  report = no_report;
  sdessources = [];
  byepackets = [];
  apppackets = [];
  byesize = 0;
  appsize = 0;
}

-- How many packets of at most 31 entries `n` entries take.
abbrev pub packets_for : ℕ → ℕ
packets_for n = if n % 31 == 0 then n / 31 else n / 31 + 1

-- Report::NeededBytes and Report::NeededBytesWithExtraReportBlock.
abbrev pub blocks_bytes : Bool → ℕ → ℕ
blocks_bytes is_sr n = n * 24 + packets_for n * 8 + (if is_sr then 20 else 0)

unfoldable pub report_bytes : Report → ℕ
report_bytes r =
    if length r.reportblocks == 0
    then if r.headerlength == 0 then 0 else 4 + r.headerlength
    else blocks_bytes r.is_sr (length r.reportblocks)

unfoldable pub report_bytes_with_extra_block : Report → ℕ
report_bytes_with_extra_block r = blocks_bytes r.is_sr (length r.reportblocks + 1)

-- Up to a multiple of four.
abbrev pub pad4 : ℕ → ℕ
pad4 x = if x % 4 == 0 then x else x + (4 - x % 4)

-- SDESSource::NeededBytes and SDESSource::NeededBytesWithExtraItem.
abbrev pub source_bytes : SdesSource → ℕ
source_bytes s = pad4 (s.totalitemsize + 1) + 4

abbrev pub source_bytes_with_extra_item : SdesSource → ℕ → ℕ
source_bytes_with_extra_item s itemdatalength = pad4 (s.totalitemsize + 2 + itemdatalength + 1) + 4

abbrev pub sources_bytes : List SdesSource → ℕ
sources_bytes [] = 0
sources_bytes (s ∷ ss) = source_bytes s + sources_bytes ss

-- SDES::NeededBytes.
unfoldable pub sdes_bytes : List SdesSource → ℕ
sdes_bytes [] = 0
sdes_bytes (s ∷ ss) = sources_bytes (s ∷ ss) + packets_for (length (s ∷ ss)) * 4

-- The sources before the last, and the last with an extra item.
abbrev pub sources_bytes_with_extra_item : SdesSource → List SdesSource → ℕ → ℕ
sources_bytes_with_extra_item s [] n = source_bytes_with_extra_item s n
sources_bytes_with_extra_item s (t ∷ ts) n = source_bytes s + sources_bytes_with_extra_item t ts n

-- SDES::NeededBytesWithExtraItem.
unfoldable pub sdes_bytes_with_extra_item : List SdesSource → ℕ → ℕ
sdes_bytes_with_extra_item [] n = 0
sdes_bytes_with_extra_item (s ∷ ss) n =
    sources_bytes_with_extra_item s ss n + packets_for (length (s ∷ ss)) * 4

-- SDES::NeededBytesWithExtraSource, which is 0 where there is no source yet.
unfoldable pub sdes_bytes_with_extra_source : List SdesSource → ℕ
sdes_bytes_with_extra_source [] = 0
sdes_bytes_with_extra_source (s ∷ ss) =
    sources_bytes (s ∷ ss) + 8 + packets_for (length (s ∷ ss) + 1) * 4

-- SDES::AddSSRC.
abbrev pub add_ssrc : List SdesSource → ℕ → List SdesSource
add_ssrc ss ssrc = ss ++ (record { ssrc = ssrc; items = []; totalitemsize = 0 } ∷ [])

-- SDESSource::AddItem, and SDES::AddItem to the source at `sdesit`.
abbrev pub add_item : SdesSource → List ℕ → SdesSource
add_item s buf = record s {
  items = s.items ++ (buf ∷ []);
  totalitemsize = s.totalitemsize + length buf;
}

unfoldable pub add_sdes_item : List SdesSource → List ℕ → List SdesSource
add_sdes_item [] buf = []
add_sdes_item (s ∷ []) buf = add_item s buf ∷ []
add_sdes_item (s ∷ t ∷ ts) buf = s ∷ add_sdes_item (t ∷ ts) buf

-- A method returns the object and the status; `ok tt` stands for 0.
abbrev pub Step : Type 0
Step = CompoundBuilder × Outcome (Unit {0})

abbrev pub done : CompoundBuilder → Step
done b = (b, ok tt)

abbrev pub refuse : CompoundBuilder → ErrorCode → Step
refuse b e = (b, err e)

abbrev pub started : CompoundBuilder → ℕ → Bool → CompoundBuilder
started b size external = record b {
  maximumpacketsize = size;
  external = external;
  byesize = 0;
  appsize = 0;
  arebuilding = true;
}

-- InitBuild, for memory of its own and for an external buffer.
abbrev pub start_build : CompoundBuilder → ℕ → Bool → ErrorCode → Step
start_build b size external too_small =
    if b.arebuilding then refuse b rtcpcomppackbuilder_alreadybuilding else elim b.compoundpacket [
      | some packet ↦ refuse b rtcpcomppackbuilder_alreadybuilt
      | none ↦ if ltb size 600 then refuse b too_small else done (started b size external)
    ]

unfoldable pub init_build : CompoundBuilder → ℕ → Step
init_build b maxpacketsize =
    start_build b maxpacketsize false rtcpcomppackbuilder_maxpacketsizetoosmall

unfoldable pub init_build_external : CompoundBuilder → ℕ → Step
init_build_external b buffersize =
    start_build b buffersize true rtcpcomppackbuilder_buffersizetoosmall
