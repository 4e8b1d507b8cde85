-- ===== src/Rtcp/CompoundBuilder/WellFormed/Runs.antt =====
-- The calls that add BYE and APP packets, EndBuild, and every run of calls keep the builder well-formed.
use jrtplib.Prelude.{
  ℕ, ◌+◌, ◌%◌, ◌/◌, ◌≤◌, ◌<◌, ◌≡◌, inl, refl, Bool, true, false, not, ◌&&◌, List, [], ◌∷◌, ◌++◌,
  All, All-append, length, length-append, ltb, ◌==◌, arith, Outcome, ok, err, fault,
}
use jrtplib.Bytes.{put_u32, length-put_u32}
use jrtplib.Rtcp.Packet.{RtcpPacket}
use jrtplib.Rtcp.CompoundBuilder.{CompoundBuilder, new_builder, init_build, init_build_external}
use jrtplib.Rtcp.CompoundBuilder.Reports.{start_sender_report, start_receiver_report}
use jrtplib.Rtcp.CompoundBuilder.Farewell.{
  built_bytes, packet_bytes, put_all, reason_bytes, bye_size, add_bye_packet, add_app_packet,
}
use jrtplib.Rtcp.CompoundBuilder.End.{concat, finish, end_build}
use jrtplib.Rtcp.CompoundBuilder.Sound.{
  Sound, bye-Sound, app-Sound, length-packet_bytes, length-bye_body,
}
use jrtplib.Rtcp.CompoundBuilder.WellFormed.{
  WellFormed, Call, CallFits, perform, run_calls, init_call, init_external_call, sender_report_call,
  receiver_report_call, report_block_call, sdes_source_call, sdes_normal_item_call,
  sdes_private_item_call, bye_call, app_call, end_call,
}
use jrtplib.Rtcp.CompoundBuilder.WellFormed.Kept.{
  if_keeps, true≢false, is_on, start_build-WellFormed, start_report-WellFormed,
  add_report_block-WellFormed,
}
use jrtplib.Rtcp.CompoundBuilder.WellFormed.Items.{
  length-concat_append, add_sdes_source-WellFormed, add_sdes_normal_item-WellFormed,
  add_sdes_private_item-WellFormed,
}

bye_bytes_add :
    (ds : List (List ℕ)) (d : List ℕ) (size n : ℕ)
    → size ≡ length (concat ds)
    → n ≡ length d
    → size + n ≡ length (concat (ds ++ (d ∷ [])))
bye_bytes_add ds d size n e l = omega (arith, e, l, length-concat_append ds d)

add_bye_packet-WellFormed :
    (b : CompoundBuilder) (given : Bool) (ssrcs reason : List ℕ)
    → length reason < 256
    → WellFormed b
    → WellFormed (add_bye_packet b given ssrcs reason).0
unfolding add_bye_packet
add_bye_packet-WellFormed b given ssrcs reason short w =
    if_keeps WellFormed (not b.arebuilding) _ _ (λ off. w)
      (λ on.
        if_keeps WellFormed (ltb 31 (length ssrcs)) _ _ (λ many. w)
          (λ few.
            if_keeps WellFormed (ltb b.maximumpacketsize (built_bytes b + bye_size ssrcs reason)) _
              _ (λ full. w)
              (λ fits.
                if_keeps WellFormed (not given) _ _ (λ lack. w) (λ have. go on (ground arith)))))
  where
    go :
        not b.arebuilding ≡ false
        → length ssrcs ≤ 31
        → WellFormed (record b {
          byepackets =
              b.byepackets
              ++ (packet_bytes (length ssrcs) 203 (put_all ssrcs ++ reason_bytes reason) ∷ []);
          byesize = b.byesize + bye_size ssrcs reason;
        })
    go on few =
        let body : List ℕ = put_all ssrcs ++ reason_bytes reason in
        let bytes : List ℕ = packet_bytes (length ssrcs) 203 body in
        let size : bye_size ssrcs reason ≡ length bytes =
          omega
            (arith, length-packet_bytes (length ssrcs) 203 body, length-bye_body ssrcs reason) in
        record {
          header = w.header;
          blocks = w.blocks;
          sources = w.sources;
          apps = w.apps;
          byes =
              All-append (Sound 203) b.byepackets (bytes ∷ []) w.byes
                (bye-Sound ssrcs reason few short, tt);
          app_bytes = w.app_bytes;
          bye_bytes =
              bye_bytes_add b.byepackets bytes b.byesize (bye_size ssrcs reason) w.bye_bytes size;
          idle = λ off. true≢false b.arebuilding (is_on b on) off;
          unbuilt = w.unbuilt;
          fresh = w.fresh;
        }

add_app_packet-WellFormed :
    (b : CompoundBuilder) (given : Bool) (subtype ssrc : ℕ) (label appdata : List ℕ)
    → length label ≡ 4
    → WellFormed b
    → WellFormed (add_app_packet b given subtype ssrc label appdata).0
unfolding add_app_packet
add_app_packet-WellFormed b given subtype ssrc label appdata four w =
    if_keeps WellFormed (not b.arebuilding) _ _ (λ off. w)
      (λ on.
        if_keeps WellFormed (ltb 31 subtype) _ _ (λ big. w)
          (λ small.
            if_keeps WellFormed (not (length appdata % 4 == 0)) _ _ (λ odd. w)
              (λ words.
                if_keeps WellFormed (ltb 65535 (length appdata / 4 + 2)) _ _ (λ long. w)
                  (λ short.
                    if_keeps WellFormed
                      (ltb b.maximumpacketsize (built_bytes b + (12 + length appdata))) _ _
                      (λ full. w)
                      (λ fits.
                        if_keeps WellFormed (not given) _ _ (λ lack. w)
                          (λ have. go on (ground arith) (ground arith)))))))
  where
    go :
        not b.arebuilding ≡ false
        → length appdata % 4 ≡ 0
        → length appdata / 4 + 2 ≤ 65535
        → WellFormed (record b {
          apppackets =
              b.apppackets ++ (packet_bytes subtype 204 (put_u32 ssrc ++ (label ++ appdata)) ∷ []);
          appsize = b.appsize + (12 + length appdata);
        })
    go on words short =
        let body : List ℕ = put_u32 ssrc ++ (label ++ appdata) in
        let bytes : List ℕ = packet_bytes subtype 204 body in
        let size : length body ≡ 8 + length appdata = omega (
          arith,
          length-append (put_u32 ssrc) (label ++ appdata),
          length-append label appdata,
          length-put_u32 ssrc,
        ) in
        let whole : 12 + length appdata ≡ length bytes =
          omega (arith, length-packet_bytes subtype 204 body, size) in
        record {
          header = w.header;
          blocks = w.blocks;
          sources = w.sources;
          apps =
              All-append (Sound 204) b.apppackets (bytes ∷ []) w.apps
                (app-Sound subtype body (omega arith) (omega arith) (omega arith), tt);
          byes = w.byes;
          app_bytes =
              bye_bytes_add b.apppackets bytes b.appsize (12 + length appdata) w.app_bytes whole;
          bye_bytes = w.bye_bytes;
          idle = λ off. true≢false b.arebuilding (is_on b on) off;
          unbuilt = w.unbuilt;
          fresh = w.fresh;
        }

finish-WellFormed :
    (b : CompoundBuilder) (o : Outcome (List RtcpPacket)) → WellFormed b → WellFormed (finish b o).0
unfolding finish
finish-WellFormed b (ok ps) w = record {
  header = inl (refl, refl);
  blocks = tt;
  sources = tt;
  apps = tt;
  byes = tt;
  app_bytes = refl;
  bye_bytes = refl;
  idle = λ off. ((refl, refl), refl, refl, refl, refl, refl);
  unbuilt = λ on. true≢false false on refl;
  fresh = λ e. cc;
}
finish-WellFormed b (err e) w = record {
  header = w.header;
  blocks = w.blocks;
  sources = w.sources;
  apps = w.apps;
  byes = w.byes;
  app_bytes = w.app_bytes;
  bye_bytes = w.bye_bytes;
  idle = w.idle;
  unbuilt = λ on. ((w.unbuilt on).0, refl);
  fresh = λ n. refl;
}
finish-WellFormed b fault w = w

end_build-WellFormed :
    (b : CompoundBuilder) (given : Bool) (room : ℕ)
    → WellFormed b
    → WellFormed (end_build b given room).0
unfolding end_build
end_build-WellFormed b given room w =
    if_keeps WellFormed (not b.arebuilding) _ _ (λ off. w)
      (λ on.
        if_keeps WellFormed (b.report.headerlength == 0) _ _ (λ no. w)
          (λ got.
            if_keeps WellFormed (not b.external && not given) _ _ (λ lack. w)
              (λ have. finish-WellFormed b _ w)))

-- Every call keeps the builder well-formed, whether it succeeds or not.
pub perform-WellFormed :
    (b : CompoundBuilder) (c : Call) → CallFits c → WellFormed b → WellFormed (perform b c).0
unfolding perform init_build init_build_external start_sender_report start_receiver_report put_u32
perform-WellFormed b (init_call size) f w = start_build-WellFormed b size false _ w
perform-WellFormed b (init_external_call size) f w = start_build-WellFormed b size true _ w
perform-WellFormed b (sender_report_call ssrc info) f w = start_report-WellFormed b true _ w refl
perform-WellFormed b (receiver_report_call ssrc) f w = start_report-WellFormed b false _ w refl
perform-WellFormed b (report_block_call given block) f w =
    add_report_block-WellFormed b given block w
perform-WellFormed b (sdes_source_call given ssrc) f w = add_sdes_source-WellFormed b given ssrc w
perform-WellFormed b (sdes_normal_item_call given t value) f w =
    add_sdes_normal_item-WellFormed b given t value f w
perform-WellFormed b (sdes_private_item_call given pre value) f w =
    add_sdes_private_item-WellFormed b given pre value w
perform-WellFormed b (bye_call given ssrcs reason) f w =
    add_bye_packet-WellFormed b given ssrcs reason f w
perform-WellFormed b (app_call given subtype ssrc label appdata) f w =
    add_app_packet-WellFormed b given subtype ssrc label appdata f w
perform-WellFormed b (end_call given room) f w = end_build-WellFormed b given room w

pub new_builder-WellFormed : WellFormed new_builder
new_builder-WellFormed = record {
  header = inl (refl, refl);
  blocks = tt;
  sources = tt;
  apps = tt;
  byes = tt;
  app_bytes = refl;
  bye_bytes = refl;
  idle = λ off. ((refl, refl), refl, refl, refl, refl, refl);
  unbuilt = λ on. true≢false false on refl;
  fresh = λ e. refl;
}

-- Calls that keep a property of the state keep it in every run.
pub run_calls-keeps :
    (P : CompoundBuilder → Type 0) (b : CompoundBuilder) (cs : List Call)
    → ((b : CompoundBuilder) (c : Call) → CallFits c → P b → P (perform b c).0)
    → All CallFits cs
    → P b
    → P (run_calls b cs)
unfolding run_calls
run_calls-keeps P b [] k a p = p
run_calls-keeps P b (c ∷ cs) k (f, a) p = run_calls-keeps P (perform b c).0 cs k a (k b c f p)

-- After any run of calls on a new RTCPCompoundPacketBuilder, whose arguments have the lengths that a
-- uint8_t can hold and names of four bytes, the builder is well-formed: the report blocks have 24
-- bytes and the report header its length, the sizes that the builder keeps are those of the items and packets it
-- holds, the items are items and the BYE and APP packets packets of a known format, and outside a
-- build it holds none of them.
pub run_calls-WellFormed :
    (cs : List Call) → All CallFits cs → WellFormed (run_calls new_builder cs)
run_calls-WellFormed cs a =
    run_calls-keeps WellFormed new_builder cs perform-WellFormed a new_builder-WellFormed
