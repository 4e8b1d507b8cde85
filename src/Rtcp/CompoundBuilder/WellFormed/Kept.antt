-- ===== src/Rtcp/CompoundBuilder/WellFormed/Kept.antt =====
-- The calls that start a build or a report, and AddReportBlock, keep the builder well-formed.
use jrtplib.Prelude.{
  ℕ, ◌+◌, ◌≡◌, ◌≢◌, ◌⊎◌, inl, inr, refl, sym, ◌∙◌, Bool, true, false, not, List, [], ◌∷◌,
  Option-cases, none, All, All-append, length, ltb, ◌==◌, if◌then◌else◌, arith, ErrorCode,
}
use jrtplib.Bytes.{put_u32}
use jrtplib.Rtcp.CompoundBuilder.{
  CompoundBuilder, Report, SdesSource, start_build, started, Step, report_bytes_with_extra_block,
}
use jrtplib.Rtcp.CompoundBuilder.Reports.{
  other_than_report, ReportBlock, block_data, start_report, add_report_block,
}
use jrtplib.Rtcp.CompoundBuilder.Sound.{IsBlock, Started}
use jrtplib.Rtcp.CompoundBuilder.SdesSound.{IsSource}
use jrtplib.Rtcp.CompoundBuilder.WellFormed.{NoReport, WellFormed}

-- A property of the state behind a call follows from each branch.
pub if_keeps :
    (P : CompoundBuilder → Type 0) (c : Bool) (x y : Step)
    → (c ≡ true → P x.0)
    → (c ≡ false → P y.0)
    → P (if c then x else y).0
if_keeps P true x y f g = f refl
if_keeps P false x y f g = g refl

pub true≢false : {A : Type 0} (b : Bool) → b ≡ true → b ≡ false → A
true≢false b e f = absurd (differ (sym e ∙ f))
  where
    differ : true ≢ false
    differ e = cc

with_report :
    (b : CompoundBuilder) (r : Report)
    → WellFormed b
    → b.arebuilding ≡ true
    → Started r
    → All IsBlock r.reportblocks
    → WellFormed (record b { report = r })
with_report b r w on s a = record {
  header = inr s;
  blocks = a;
  sources = w.sources;
  apps = w.apps;
  byes = w.byes;
  app_bytes = w.app_bytes;
  bye_bytes = w.bye_bytes;
  idle = λ off. true≢false b.arebuilding on off;
  unbuilt = w.unbuilt;
  fresh = w.fresh;
}

pub with_sources :
    (b : CompoundBuilder) (ss : List SdesSource)
    → WellFormed b
    → b.arebuilding ≡ true
    → All IsSource ss
    → WellFormed (record b { sdessources = ss })
with_sources b ss w on a = record {
  header = w.header;
  blocks = w.blocks;
  sources = a;
  apps = w.apps;
  byes = w.byes;
  app_bytes = w.app_bytes;
  bye_bytes = w.bye_bytes;
  idle = λ off. true≢false b.arebuilding on off;
  unbuilt = w.unbuilt;
  fresh = w.fresh;
}

pub start_build-WellFormed :
    (b : CompoundBuilder) (size : ℕ) (external : Bool) (e : ErrorCode)
    → WellFormed b
    → WellFormed (start_build b size external e).0
start_build-WellFormed b size external e w =
    if_keeps WellFormed b.arebuilding _ _ (λ on. w)
      (λ off. elim (Option-cases b.compoundpacket) [
        | inr (packet, c) ↦ rw c w
        | inl c ↦ rw c (if_keeps WellFormed (ltb size 600) _ _ (λ small. w) (λ fits. go off c))
      ])
  where
    go : b.arebuilding ≡ false → b.compoundpacket ≡ none → WellFormed (started b size external)
    go off c =
        let (header, sources, apps, byes, apps_size, byes_size) = w.idle off in
        record {
          header = w.header;
          blocks = w.blocks;
          sources = w.sources;
          apps = w.apps;
          byes = w.byes;
          app_bytes = sym apps_size ∙ w.app_bytes;
          bye_bytes = sym byes_size ∙ w.bye_bytes;
          idle = λ e. true≢false true refl e;
          unbuilt = λ e. (c, w.fresh c);
          fresh = w.fresh;
        }

pub start_report-WellFormed :
    (b : CompoundBuilder) (is_sr : Bool) (headerdata : List ℕ)
    → WellFormed b
    → length headerdata ≡ (if is_sr then 24 else 4)
    → WellFormed (start_report b is_sr (if is_sr then 24 else 4) headerdata).0
start_report-WellFormed b is_sr headerdata w l =
    if_keeps WellFormed (not b.arebuilding) _ _ (λ off. w)
      (λ on.
        if_keeps WellFormed (not (b.report.headerlength == 0)) _ _ (λ got. w)
          (λ free.
            if_keeps WellFormed _ _ _ (λ full. w)
              (λ fits. with_report b _ w (ground arith) (refl, l) w.blocks)))

pub is_on : (b : CompoundBuilder) → not b.arebuilding ≡ false → b.arebuilding ≡ true
is_on b e = ground arith

pub add_report_block-WellFormed :
    (b : CompoundBuilder) (given : Bool) (r : ReportBlock)
    → WellFormed b
    → WellFormed (add_report_block b given r).0
unfolding add_report_block block_data put_u32
add_report_block-WellFormed b given r w =
    if_keeps WellFormed (not b.arebuilding) _ _ (λ off. w)
      (λ on.
        if_keeps WellFormed (b.report.headerlength == 0) _ _ (λ no. w)
          (λ got.
            if_keeps WellFormed
              (ltb b.maximumpacketsize
                (other_than_report b + report_bytes_with_extra_block b.report))
              _ _ (λ full. w)
              (λ fits.
                if_keeps WellFormed (not given) _ _ (λ lack. w)
                  (λ have. with_report b _ w (is_on b on) (is_started w.header got) (
                    All-append IsBlock b.report.reportblocks (block_data r ∷ []) w.blocks
                      (refl, tt))))))
  where
    is_started :
        NoReport b ⊎ Started b.report → (b.report.headerlength == 0) ≡ false → Started b.report
    is_started (inl (z, n)) got = absurd (ground arith)
    is_started (inr s) got = s
