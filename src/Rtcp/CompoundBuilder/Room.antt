-- ===== src/Rtcp/CompoundBuilder/Room.antt =====
-- How far the compound packet that is being built can outgrow the maximum packet size.
pub mod Kept
use jrtplib.Prelude.{
  ℕ, zero, suc, ◌+◌, ◌-◌, ◌*◌, ◌/◌, ◌%◌, ◌≤◌, ◌<◌, ◌≡◌, ◌≢◌, ◌⊎◌, inl, inr, refl, ap, sym, ◌∙◌,
  Bool, true, false, not, ◌&&◌, List, [], ◌∷◌, ◌++◌, Option-cases, Bool-cases, none, some, All,
  length, length-append, ltb, ◌==◌, if◌then◌else◌, arith, ErrorCode, Outcome, ok, err, fault,
  suc==zero,
}
use jrtplib.Rtcp.Packet.{RtcpPacket}
use jrtplib.Rtcp.Sdes.Iterate.{ItemType}
use jrtplib.Rtcp.CompoundBuilder.{
  CompoundBuilder, Report, SdesSource, new_builder, start_build, started, refuse, done,
  report_bytes, report_bytes_with_extra_block, sdes_bytes, sdes_bytes_with_extra_source,
  sdes_bytes_with_extra_item, sources_bytes, sources_bytes_with_extra_item, packets_for, add_ssrc,
  add_item, add_sdes_item,
}
use jrtplib.Rtcp.CompoundBuilder.Reports.{
  start_report, add_report_block, ReportBlock, block_data, other_than_report, size_minus,
}
use jrtplib.Rtcp.CompoundBuilder.Lengths.{sdes_bytes-sources}
use jrtplib.Rtcp.CompoundBuilder.Descriptions.{add_sdes_source, add_item_bytes, other_than_sdes}
use jrtplib.Rtcp.CompoundBuilder.End.{built_length}
use jrtplib.Rtcp.CompoundBuilder.Sound.{Started}
use jrtplib.Rtcp.CompoundBuilder.WellFormed.{WellFormed, NoReport}
use jrtplib.Rtcp.CompoundBuilder.WellFormed.Kept.{if_keeps}

-- The bytes that are needed so far: more than the maximum only behind an SDES source.
pub record Bounded (b : CompoundBuilder) : Type 0 where
  pub bound : built_length b ≤ b.maximumpacketsize + 40
  pub unstarted : b.report.headerlength ≡ 0 → built_length b ≤ b.maximumpacketsize + 12
  pub undescribed : b.sdessources ≡ [] → built_length b ≤ b.maximumpacketsize

pub fits-Bounded : (b : CompoundBuilder) → built_length b ≤ b.maximumpacketsize → Bounded b
fits-Bounded b h = record {
  bound = omega arith;
  unstarted = λ e. omega arith;
  undescribed = λ e. h;
}

pub report_bytes-none : (r : Report) → r.headerlength ≡ 0 → r.reportblocks ≡ [] → report_bytes r ≡ 0
unfolding report_bytes
report_bytes-none r z n = ground (arith, ap length n)

pub report_bytes-started :
    (r : Report) → r.reportblocks ≡ [] → 0 < r.headerlength → report_bytes r ≡ 4 + r.headerlength
unfolding report_bytes
report_bytes-started r n h = ground (arith, ap length n)

pub report_bytes-extra_block :
    (r : Report) (d : List ℕ)
    → report_bytes (record r { reportblocks = r.reportblocks ++ (d ∷ []) })
      ≡ report_bytes_with_extra_block r
unfolding report_bytes report_bytes_with_extra_block
report_bytes-extra_block r d =
    let one_more : length (r.reportblocks ++ (d ∷ [])) ≡ length r.reportblocks + 1 =
      length-append r.reportblocks (d ∷ []) in
    let some_blocks : ((length r.reportblocks + 1) == 0) ≡ false = ground arith in
    rw (one_more, some_blocks) refl

sources_bytes-append :
    (ss ts : List SdesSource) → sources_bytes (ss ++ ts) ≡ sources_bytes ss + sources_bytes ts
sources_bytes-append [] ts = omega arith
sources_bytes-append (s ∷ ss) ts = omega (arith, sources_bytes-append ss ts)

-- AddSDESSource reckons with what the new source takes, but for the first.
pub sdes_bytes-extra_source :
    (ss : List SdesSource) (ssrc : ℕ)
    → ((ss ≡ []) × (sdes_bytes (add_ssrc ss ssrc) ≡ 12))
      ⊎ (sdes_bytes (add_ssrc ss ssrc) ≡ sdes_bytes_with_extra_source ss)
unfolding sdes_bytes_with_extra_source
sdes_bytes-extra_source [] ssrc = inl (refl, sdes_bytes-sources _)
sdes_bytes-extra_source (s ∷ ss) ssrc =
    let new : SdesSource = record { ssrc = ssrc; items = []; totalitemsize = 0 } in
    let more = length-append (s ∷ ss) (new ∷ []) in
    inr (
      sdes_bytes-sources (s ∷ (ss ++ (new ∷ [])))
      ∙ omega (arith, sources_bytes-append (s ∷ ss) (new ∷ []), ap packets_for more))

sources_bytes-extra_item :
    (s : SdesSource) (ss : List SdesSource) (buf : List ℕ) (n : ℕ)
    → length buf ≡ 2 + n
    → (sources_bytes (add_sdes_item (s ∷ ss) buf) ≡ sources_bytes_with_extra_item s ss n)
      × (length (add_sdes_item (s ∷ ss) buf) ≡ length (s ∷ ss))
unfolding add_sdes_item
sources_bytes-extra_item s [] buf n l = (ground arith, refl)
sources_bytes-extra_item s (t ∷ ts) buf n l =
    let (e, k) = sources_bytes-extra_item t ts buf n l in (omega (arith, e), omega (arith, k))

pub sdes_bytes-extra_item :
    (ss : List SdesSource) (buf : List ℕ) (n : ℕ)
    → length buf ≡ 2 + n
    → sdes_bytes (add_sdes_item ss buf) ≡ sdes_bytes_with_extra_item ss n
unfolding sdes_bytes_with_extra_item
sdes_bytes-extra_item [] buf n l = unfold add_sdes_item sdes_bytes in refl
sdes_bytes-extra_item (s ∷ ss) buf n l =
    let (e, k) = sources_bytes-extra_item s ss buf n l in
    sdes_bytes-sources (add_sdes_item (s ∷ ss) buf) ∙ omega (arith, e, ap packets_for k)
