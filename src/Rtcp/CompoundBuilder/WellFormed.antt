-- ===== src/Rtcp/CompoundBuilder/WellFormed.antt =====
-- What holds of an RTCPCompoundPacketBuilder between two calls, and the calls that keep it.
pub mod Kept
pub mod Items
pub mod Runs
use jrtplib.Prelude.{
  ℕ, ◌+◌, ◌*◌, ◌≤◌, ◌<◌, ◌≡◌, ◌⊎◌, inl, inr, refl, Bool, true, false, List, [], ◌∷◌, Option, none,
  All, length, arith,
}
use jrtplib.Rtcp.Packet.Fields.{SenderInfo}
use jrtplib.Rtcp.Sdes.Iterate.{ItemType}
use jrtplib.Rtcp.CompoundBuilder.{
  CompoundBuilder, new_builder, init_build, init_build_external, Step,
}
use jrtplib.Rtcp.CompoundBuilder.Reports.{
  ReportBlock, start_sender_report, start_receiver_report, add_report_block,
}
use jrtplib.Rtcp.CompoundBuilder.Descriptions.{
  add_sdes_source, add_sdes_normal_item, add_sdes_private_item,
}
use jrtplib.Rtcp.CompoundBuilder.Farewell.{add_bye_packet, add_app_packet}
use jrtplib.Rtcp.CompoundBuilder.End.{concat, end_build}
use jrtplib.Rtcp.CompoundBuilder.Sound.{Sound, IsBlock, Started}
use jrtplib.Rtcp.CompoundBuilder.SdesSound.{IsSource}

abbrev pub NoReport : CompoundBuilder → Type 0
NoReport b = (b.report.headerlength ≡ 0) × (b.report.reportblocks ≡ [])

-- Nothing is left of a build.
abbrev pub Idle : CompoundBuilder → Type 0
Idle b =
    NoReport b
    × (b.sdessources ≡ [])
    × (b.apppackets ≡ [])
    × (b.byepackets ≡ [])
    × (b.appsize ≡ 0)
    × (b.byesize ≡ 0)

pub record WellFormed (b : CompoundBuilder) : Type 0 where
  pub header : NoReport b ⊎ Started b.report
  pub blocks : All IsBlock b.report.reportblocks
  pub sources : All IsSource b.sdessources
  pub apps : All (Sound 204) b.apppackets
  pub byes : All (Sound 203) b.byepackets
  pub app_bytes : b.appsize ≡ length (concat b.apppackets)
  pub bye_bytes : b.byesize ≡ length (concat b.byepackets)
  pub idle : b.arebuilding ≡ false → Idle b
  pub unbuilt : b.arebuilding ≡ true → (b.compoundpacket ≡ none) × (b.rtcppacklist ≡ [])
  pub fresh : b.compoundpacket ≡ none → b.rtcppacklist ≡ []

-- The calls with their arguments. `given` and `room` tell what memory RTPNew finds.
pub data Call : Type 0 where
  init_call : ℕ → Call
  init_external_call : ℕ → Call
  sender_report_call : ℕ → SenderInfo → Call
  receiver_report_call : ℕ → Call
  report_block_call : Bool → ReportBlock → Call
  sdes_source_call : Bool → ℕ → Call
  sdes_normal_item_call : Bool → ItemType → List ℕ → Call
  sdes_private_item_call : Bool → List ℕ → List ℕ → Call
  bye_call : Bool → List ℕ → List ℕ → Call
  app_call : Bool → ℕ → ℕ → List ℕ → List ℕ → Call
  end_call : Bool → ℕ → Call

unfoldable pub perform : CompoundBuilder → Call → Step
unfolding init_build init_build_external start_sender_report start_receiver_report add_report_block
    add_sdes_source add_sdes_normal_item add_sdes_private_item add_bye_packet add_app_packet
    end_build
perform b c = elim c [
  | init_call size ↦ init_build b size
  | init_external_call size ↦ init_build_external b size
  | sender_report_call ssrc info ↦ start_sender_report b ssrc info
  | receiver_report_call ssrc ↦ start_receiver_report b ssrc
  | report_block_call given block ↦ add_report_block b given block
  | sdes_source_call given ssrc ↦ add_sdes_source b given ssrc
  | sdes_normal_item_call given t value ↦ add_sdes_normal_item b given t value
  | sdes_private_item_call given pre value ↦ add_sdes_private_item b given pre value
  | bye_call given ssrcs reason ↦ add_bye_packet b given ssrcs reason
  | app_call given subtype ssrc name appdata ↦ add_app_packet b given subtype ssrc name appdata
  | end_call given room ↦ end_build b given room
]

-- The lengths that a uint8_t can hold, and the four bytes of an APP packet's name.
abbrev pub CallFits : Call → Type 0
CallFits c = elim c [
  | sdes_normal_item_call given t value ↦ length value < 256
  | bye_call given ssrcs reason ↦ length reason < 256
  | app_call given subtype ssrc name appdata ↦ length name ≡ 4
  | _ ↦ Unit
]

-- The state behind a run of calls.
unfoldable pub run_calls : CompoundBuilder → List Call → CompoundBuilder
unfolding perform
run_calls b [] = b
run_calls b (c ∷ cs) = run_calls (perform b c).0 cs
