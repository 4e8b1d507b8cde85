-- ===== src/Rtcp/CompoundBuilder/Room/Kept.antt =====
-- The bound on the size holds in every run of calls.
use jrtplib.Prelude.{
  ℕ, ◌+◌, ◌/◌, ◌%◌, ◌≤◌, ◌<◌, ◌≡◌, ◌⊎◌, inl, inr, refl, ap, ◌∙◌, Bool, true, false, not, ◌&&◌, List,
  [], ◌∷◌, ◌++◌, Option-cases, All, length, ltb, ◌==◌, arith, ErrorCode, Outcome, ok, err, fault,
  ltb→le,
}
use jrtplib.Rtcp.Packet.{RtcpPacket}
use jrtplib.Rtcp.Sdes.Iterate.{ItemType}
use jrtplib.Rtcp.CompoundBuilder.{
  no_report, init_build, init_build_external, CompoundBuilder, Report, new_builder, start_build,
  started, report_bytes, report_bytes_with_extra_block, sdes_bytes, sdes_bytes_with_extra_source,
  sdes_bytes_with_extra_item, add_ssrc,
}
use jrtplib.Rtcp.CompoundBuilder.Reports.{
  start_sender_report, start_receiver_report, start_report, add_report_block, ReportBlock,
  block_data, other_than_report, size_minus,
}
use jrtplib.Rtcp.CompoundBuilder.Lengths.{sdes_bytes-sources}
use jrtplib.Rtcp.CompoundBuilder.Descriptions.{
  normal_item_id, add_sdes_normal_item, add_sdes_private_item, add_sdes_source, add_item_bytes,
  other_than_sdes,
}
use jrtplib.Rtcp.CompoundBuilder.End.{finish, end_build}
use jrtplib.Rtcp.CompoundBuilder.Sound.{Started}
use jrtplib.Rtcp.CompoundBuilder.WellFormed.{
  WellFormed, NoReport, Call, CallFits, perform, run_calls, init_call, init_external_call,
  sender_report_call, receiver_report_call, report_block_call, sdes_source_call,
  sdes_normal_item_call, sdes_private_item_call, bye_call, app_call, end_call,
}
use jrtplib.Rtcp.CompoundBuilder.WellFormed.Runs.{
  perform-WellFormed, new_builder-WellFormed, run_calls-keeps,
}
use jrtplib.Rtcp.CompoundBuilder.Farewell.{built_bytes, bye_size, add_bye_packet, add_app_packet}
use jrtplib.Rtcp.CompoundBuilder.WellFormed.Kept.{if_keeps}
use jrtplib.Rtcp.CompoundBuilder.Room.{
  Bounded, fits-Bounded, report_bytes-none, report_bytes-started, report_bytes-extra_block,
  sdes_bytes-extra_source, sdes_bytes-extra_item,
}

start_build-Bounded :
    (b : CompoundBuilder) (size : ℕ) (external : Bool) (e : ErrorCode)
    → WellFormed b
    → Bounded b
    → Bounded (start_build b size external e).0
start_build-Bounded b size external e w r =
    if_keeps Bounded b.arebuilding _ _ (λ on. r)
      (λ off. elim (Option-cases b.compoundpacket) [
        | inr (packet, c) ↦ rw c r
        | inl c ↦ rw c (if_keeps Bounded (ltb size 600) _ _ (λ small. r) (λ fits. go off))
      ])
  where
    go : b.arebuilding ≡ false → Bounded (started b size external)
    go off =
        let (header, sources, apps, byes, apps_size, byes_size) = w.idle off in
        let none_reported : report_bytes b.report ≡ 0 =
          report_bytes-none b.report header.0 header.1 in
        let none_described : sdes_bytes b.sdessources ≡ 0 =
          ap sdes_bytes sources ∙ sdes_bytes-sources [] in
        fits-Bounded _ (omega (arith, none_reported, none_described))

start_report-Bounded :
    (b : CompoundBuilder) (is_sr : Bool) (headerlength : ℕ) (headerdata : List ℕ)
    → 0 < headerlength
    → headerlength ≤ 24
    → WellFormed b
    → Bounded b
    → Bounded (start_report b is_sr headerlength headerdata).0
start_report-Bounded b is_sr headerlength headerdata z h w r =
    if_keeps Bounded (not b.arebuilding) _ _ (λ off. r)
      (λ on.
        if_keeps Bounded (not (b.report.headerlength == 0)) _ _ (λ got. r)
          (λ free.
            if_keeps Bounded
              (ltb (size_minus b.maximumpacketsize (other_than_report b)) (4 + headerlength)) _ _
              (λ full. r) (λ fits. go (ground arith) w.header (ground arith))))
  where
    new : Report
    new = record b.report { is_sr = is_sr; headerdata = headerdata; headerlength = headerlength }

    go :
        b.report.headerlength ≡ 0
        → NoReport b ⊎ Started b.report
        → (b.maximumpacketsize < other_than_report b)
          ⊎ (other_than_report b + 4 + headerlength ≤ b.maximumpacketsize)
        → Bounded (record b { report = new })
    go free (inr s) fits = absurd (ground arith)
    go free (inl (z', n)) fits =
        let before : report_bytes b.report ≡ 0 = report_bytes-none b.report z' n in
        let after : report_bytes new ≡ 4 + headerlength = report_bytes-started new n z in
        let old = r.unstarted free in
        record {
          bound = omega (arith, before, after, old, fits);
          unstarted = λ e. absurd (omega (arith, z));
          undescribed = λ e. omega (arith, before, after, r.undescribed e, fits);
        }

add_report_block-Bounded :
    (b : CompoundBuilder) (given : Bool) (block : ReportBlock)
    → Bounded b
    → Bounded (add_report_block b given block).0
unfolding add_report_block
add_report_block-Bounded b given block r =
    if_keeps Bounded (not b.arebuilding) _ _ (λ off. r)
      (λ on.
        if_keeps Bounded (b.report.headerlength == 0) _ _ (λ no. r)
          (λ got.
            if_keeps Bounded
              (ltb b.maximumpacketsize
                (other_than_report b + report_bytes_with_extra_block b.report))
              _ _ (λ full. r)
              (λ fits.
                if_keeps Bounded (not given) _ _ (λ lack. r)
                  (λ have. fits-Bounded _ (
                    omega (
                      arith,
                      report_bytes-extra_block b.report (block_data block),
                      ltb→le _ _ fits,
                    ))))))

add_sdes_source-Bounded :
    (b : CompoundBuilder) (given : Bool) (ssrc : ℕ)
    → Bounded b
    → Bounded (add_sdes_source b given ssrc).0
unfolding add_sdes_source
add_sdes_source-Bounded b given ssrc r =
    if_keeps Bounded (not b.arebuilding) _ _ (λ off. r)
      (λ on.
        if_keeps Bounded
          (ltb b.maximumpacketsize (other_than_sdes b + sdes_bytes_with_extra_source b.sdessources))
          _ _ (λ full. r)
          (λ fits.
            if_keeps Bounded (not given) _ _ (λ lack. r)
              (λ have. go (ltb→le _ _ fits) (sdes_bytes-extra_source b.sdessources ssrc))))
  where
    go :
        other_than_sdes b + sdes_bytes_with_extra_source b.sdessources ≤ b.maximumpacketsize
        → ((b.sdessources ≡ []) × (sdes_bytes (add_ssrc b.sdessources ssrc) ≡ 12))
          ⊎ (sdes_bytes (add_ssrc b.sdessources ssrc) ≡ sdes_bytes_with_extra_source b.sdessources)
        → Bounded (record b { sdessources = add_ssrc b.sdessources ssrc })
    go fits (inl (first, e)) = record {
      bound = omega (arith, e);
      unstarted = λ z. omega (arith, e);
      undescribed = λ q. absurd (omega (arith, e, ap sdes_bytes q, sdes_bytes-sources []));
    }
    go fits (inr e) = fits-Bounded _ (omega (arith, e))

add_item_bytes-Bounded :
    (b : CompoundBuilder) (given : Bool) (id : ℕ) (value : List ℕ)
    → Bounded b
    → Bounded (add_item_bytes b given id value).0
add_item_bytes-Bounded b given id value r =
    if_keeps Bounded
      (ltb b.maximumpacketsize
        (sdes_bytes_with_extra_item b.sdessources (length value) + other_than_sdes b))
      _ _ (λ full. r)
      (λ fits.
        if_keeps Bounded (not given) _ _ (λ lack. r)
          (λ have.
            let size =
              sdes_bytes-extra_item b.sdessources (id ∷ (length value % 256) ∷ value) (length value)
                (omega arith) in
            fits-Bounded _ (omega (arith, size, ltb→le _ _ fits))))

add_sdes_normal_item-Bounded :
    (b : CompoundBuilder) (given : Bool) (t : ItemType) (value : List ℕ)
    → Bounded b
    → Bounded (add_sdes_normal_item b given t value).0
unfolding add_sdes_normal_item
add_sdes_normal_item-Bounded b given t value r =
    if_keeps Bounded (not b.arebuilding) _ _ (λ off. r)
      (λ on.
        if_keeps Bounded (length b.sdessources == 0) _ _ (λ no. r)
          (λ got. elim (Option-cases (normal_item_id t)) [
            | inl e ↦ rw e r
            | inr (k, e) ↦ rw e (add_item_bytes-Bounded b given k value r)
          ]))

add_sdes_private_item-Bounded :
    (b : CompoundBuilder) (given : Bool) (pre value : List ℕ)
    → Bounded b
    → Bounded (add_sdes_private_item b given pre value).0
unfolding add_sdes_private_item
add_sdes_private_item-Bounded b given pre value r =
    if_keeps Bounded (not b.arebuilding) _ _ (λ off. r)
      (λ on.
        if_keeps Bounded (length b.sdessources == 0) _ _ (λ no. r)
          (λ got.
            if_keeps Bounded (ltb 255 (length pre + 1 + length value)) _ _ (λ long. r)
              (λ short. add_item_bytes-Bounded b given 8 ((length pre % 256) ∷ (pre ++ value)) r)))

add_bye_packet-Bounded :
    (b : CompoundBuilder) (given : Bool) (ssrcs reason : List ℕ)
    → Bounded b
    → Bounded (add_bye_packet b given ssrcs reason).0
unfolding add_bye_packet
add_bye_packet-Bounded b given ssrcs reason r =
    if_keeps Bounded (not b.arebuilding) _ _ (λ off. r)
      (λ on.
        if_keeps Bounded (ltb 31 (length ssrcs)) _ _ (λ many. r)
          (λ few.
            if_keeps Bounded (ltb b.maximumpacketsize (built_bytes b + bye_size ssrcs reason)) _ _
              (λ full. r)
              (λ fits.
                if_keeps Bounded (not given) _ _ (λ lack. r)
                  (λ have. fits-Bounded _ (omega (arith, ltb→le _ _ fits))))))

add_app_packet-Bounded :
    (b : CompoundBuilder) (given : Bool) (subtype ssrc : ℕ) (label appdata : List ℕ)
    → Bounded b
    → Bounded (add_app_packet b given subtype ssrc label appdata).0
unfolding add_app_packet
add_app_packet-Bounded b given subtype ssrc label appdata r =
    if_keeps Bounded (not b.arebuilding) _ _ (λ off. r)
      (λ on.
        if_keeps Bounded (ltb 31 subtype) _ _ (λ big. r)
          (λ small.
            if_keeps Bounded (not (length appdata % 4 == 0)) _ _ (λ odd. r)
              (λ words.
                if_keeps Bounded (ltb 65535 (length appdata / 4 + 2)) _ _ (λ long. r)
                  (λ short.
                    if_keeps Bounded
                      (ltb b.maximumpacketsize (built_bytes b + (12 + length appdata))) _ _
                      (λ full. r)
                      (λ fits.
                        if_keeps Bounded (not given) _ _ (λ lack. r)
                          (λ have. fits-Bounded _ (omega (arith, ltb→le _ _ fits))))))))

finish-Bounded :
    (b : CompoundBuilder) (o : Outcome (List RtcpPacket)) → Bounded b → Bounded (finish b o).0
unfolding finish
finish-Bounded b (ok ps) r =
    fits-Bounded _ (omega (arith, report_bytes-none no_report refl refl, sdes_bytes-sources []))
finish-Bounded b (err e) r = record {
  bound = r.bound;
  unstarted = r.unstarted;
  undescribed = r.undescribed;
}
finish-Bounded b fault r = r

end_build-Bounded :
    (b : CompoundBuilder) (given : Bool) (room : ℕ) → Bounded b → Bounded (end_build b given room).0
unfolding end_build
end_build-Bounded b given room r =
    if_keeps Bounded (not b.arebuilding) _ _ (λ off. r)
      (λ on.
        if_keeps Bounded (b.report.headerlength == 0) _ _ (λ no. r)
          (λ got.
            if_keeps Bounded (not b.external && not given) _ _ (λ lack. r)
              (λ have. finish-Bounded b _ r)))

perform-Bounded :
    (b : CompoundBuilder) (c : Call) → WellFormed b → Bounded b → Bounded (perform b c).0
unfolding perform init_build init_build_external start_sender_report start_receiver_report
perform-Bounded b (init_call size) w r = start_build-Bounded b size false _ w r
perform-Bounded b (init_external_call size) w r = start_build-Bounded b size true _ w r
perform-Bounded b (sender_report_call ssrc info) w r =
    start_report-Bounded b true 24 _ (omega arith) (omega arith) w r
perform-Bounded b (receiver_report_call ssrc) w r =
    start_report-Bounded b false 4 _ (omega arith) (omega arith) w r
perform-Bounded b (report_block_call given block) w r = add_report_block-Bounded b given block r
perform-Bounded b (sdes_source_call given ssrc) w r = add_sdes_source-Bounded b given ssrc r
perform-Bounded b (sdes_normal_item_call given t value) w r =
    add_sdes_normal_item-Bounded b given t value r
perform-Bounded b (sdes_private_item_call given pre value) w r =
    add_sdes_private_item-Bounded b given pre value r
perform-Bounded b (bye_call given ssrcs reason) w r = add_bye_packet-Bounded b given ssrcs reason r
perform-Bounded b (app_call given subtype ssrc label appdata) w r =
    add_app_packet-Bounded b given subtype ssrc label appdata r
perform-Bounded b (end_call given room) w r = end_build-Bounded b given room r

-- After any run of calls on a new RTCPCompoundPacketBuilder, the compound packet that EndBuild would write
-- is at most 40 bytes longer than the maximum packet size, at most 12 while no report is started,
-- and not longer at all while there is no SDES source.
pub run_calls-Bounded : (cs : List Call) → All CallFits cs → Bounded (run_calls new_builder cs)
run_calls-Bounded cs a =
    (run_calls-keeps (λ b. WellFormed b × Bounded b) new_builder cs
      (λ b c f p. (perform-WellFormed b c f p.0, perform-Bounded b c p.0 p.1)) a
      (
        new_builder-WellFormed,
        fits-Bounded new_builder
            (omega (arith, report_bytes-none no_report refl refl, sdes_bytes-sources [])),
      )).1
