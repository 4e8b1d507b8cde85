-- ===== src/Rtcp/CompoundBuilder/Parts.antt =====
-- The RTCP packets that EndBuild writes: their sizes, and what the parser makes of them.
use jrtplib.Prelude.{
  ℕ, suc, ◌+◌, ◌-◌, ◌/◌, ◌%◌, ◌≤◌, ◌≡◌, ◌⊎◌, inl, inr, refl, ap, sym, subst, ◌∙◌, Bool, true, false,
  ◌&&◌, List, [], ◌∷◌, ◌++◌, map, All, All-append, length, length-append, take, take-length-append,
  drop-length-append, ◌==◌, if◌then◌else◌, le→ltb, arith, ok, Bool-cases,
}
use jrtplib.Bytes.{byte_at, u16_at, put_u16}
use jrtplib.Rtcp.Packet.{RtcpPacket}
use jrtplib.Rtcp.Compound.Parts.{Head, Packets}
use jrtplib.Rtcp.CompoundBuilder.{CompoundBuilder, Report, report_bytes}
use jrtplib.Rtcp.CompoundBuilder.Farewell.{packet_bytes}
use jrtplib.Rtcp.CompoundBuilder.End.{
  Part, report_part, report_parts, sdes_parts, written, parts, add_parts, built_length,
}
use jrtplib.Rtcp.CompoundBuilder.Sound.{Sound, Started}
use jrtplib.Rtcp.CompoundBuilder.Lengths.{
  blocks_size, AllSound, report_parts-AllSound, sdes_parts-AllSound, length-sdes_parts,
  sdes_bytes-sources, length-written_append, length-written_buffers, buffers-AllSound,
}
use jrtplib.Rtcp.CompoundBuilder.WellFormed.{WellFormed}

Sound-Head :
    (first : Bool) (t : ℕ) (bytes rest : List ℕ) (s : Sound t bytes)
    → (first ≡ true → (t ≡ 200) ⊎ (t ≡ 201))
    → Head first (bytes ++ rest) s.object (length bytes)
unfolding packet_bytes byte_at u16_at put_u16
Sound-Head first t bytes rest s f =
    let n : ℕ = (4 + length s.body) / 4 - 1 in
    let size : length bytes ≡ 4 + length s.body = ap length s.whole ∙ omega arith in
    let front : bytes ++ rest ≡ packet_bytes s.count t s.body ++ rest =
      ap (λ x. x ++ rest) s.whole in
    record {
      b0 = 128 + s.count % 32;
      packettype = t;
      words = n;
      byte0 = rw front refl;
      byte1 = rw front refl;
      field = rw front (ap ok (omega (arith, s.fits, s.words)));
      version = omega arith;
      report = f;
      size = omega (arith, size, s.words);
      inside = omega (arith, length-append bytes rest);
      padding = λ e. absurd (ground arith);
      made = rw (take-length-append bytes rest) s.made;
    }

-- The objects of a list of packets.
abbrev pub AllKnown : List RtcpPacket → Type 0
AllKnown ps = All (λ p. p.knownformat ≡ true) ps

unfoldable pub Made : ℕ → ℕ → Bool → List Part → Type 0
Made room left first ps =
    (out : List RtcpPacket) × (add_parts room left ps ≡ ok out)
    × (length out ≡ length ps)
    × AllKnown out
    × Packets first out (written ps)

-- The first packet is a report.
abbrev pub Leads : Bool → List Part → Type 0
Leads first [] = first ≡ false
Leads first (p ∷ ps) = first ≡ true → (p.0 ≡ 200) ⊎ (p.0 ≡ 201)

not_first-Leads : (ps : List Part) → Leads false ps
not_first-Leads [] = refl
not_first-Leads (p ∷ ps) = λ q. cc

pub add_parts-Made :
    (room left : ℕ) (first : Bool) (ps : List Part)
    → Leads first ps
    → AllSound ps
    → length ps ≤ room
    → length (written ps) ≤ left
    → Made room left first ps
unfolding add_parts Made
add_parts-Made room left first [] f a r l = ([], refl, refl, tt, (f, refl))
add_parts-Made room left first ((t, bytes) ∷ ps) f (s, a) r l =
    let fits = length-append bytes (written ps) in
    let (out, e, n, k, c) =
      add_parts-Made (room - 1) (left - length bytes) false ps (not_first-Leads ps) a (omega arith)
        (omega arith) in
    let some_room : (room == 0) ≡ false = ground arith in
    (
      s.object ∷ out,
      rw (le→ltb left (length bytes) (omega arith), some_room, s.made, e) refl,
      ap suc n,
      (s.known, k),
      (
        length bytes,
        Sound-Head first t bytes (written ps) s f,
        subst (Packets false out) (sym (drop-length-append bytes (written ps))) c,
      ),
    )

report_part-kind :
    (r : Report) (first : Bool) (blocks : List (List ℕ))
    → ((report_part r first blocks).0 ≡ 200) ⊎ ((report_part r first blocks).0 ≡ 201)
unfolding report_part
report_part-kind r first blocks = elim (Bool-cases (first && r.is_sr)) [
  | inl e ↦ rw e (inl refl)
  | inr e ↦ rw e (inr refl)
]

pub parts-Leads : (b : CompoundBuilder) → Leads true (parts b)
unfolding parts report_parts
parts-Leads b = λ q. report_part-kind b.report true (take 31 b.report.reportblocks)

blocks_size-report :
    (r : Report)
    → Started r
    → (if r.is_sr then 20 else 0) + blocks_size (length r.reportblocks) ≡ report_bytes r
unfolding report_bytes
blocks_size-report r (h, l) = ground arith

report_bytes-least : (r : Report) → Started r → 8 ≤ report_bytes r
unfolding report_bytes
report_bytes-least r (h, l) = ground arith

module _ (b : CompoundBuilder) (w : WellFormed b) (s : Started b.report) where
  pub reports_made :
      AllSound
        (report_parts (suc (length b.report.reportblocks)) b.report true b.report.reportblocks)
      × (length (
            written (
              report_parts
                (suc (length b.report.reportblocks))
                b.report
                true
                b.report.reportblocks))
          ≡ report_bytes b.report)
  reports_made =
      let (a, e) =
        report_parts-AllSound (suc (length b.report.reportblocks)) b.report true
          b.report.reportblocks (omega arith) s w.blocks in
      (a, e ∙ blocks_size-report b.report s)

  pub length-parts : length (written (parts b)) ≡ built_length b
  unfolding parts
  length-parts =
      let reports : List Part =
        report_parts (suc (length b.report.reportblocks)) b.report true b.report.reportblocks in
      let sdes : List Part = sdes_parts (length b.sdessources) b.sdessources in
      let apps : List Part = map (λ p. (204, p)) b.apppackets in
      let byes : List Part = map (λ p. (203, p)) b.byepackets in
      omega (
        arith,
        reports_made.1,
        length-sdes_parts (length b.sdessources) b.sdessources (omega arith) w.sources,
        sdes_bytes-sources b.sdessources,
        length-written_buffers 204 b.apppackets,
        length-written_buffers 203 b.byepackets,
        w.app_bytes,
        w.bye_bytes,
        length-written_append reports (sdes ++ (apps ++ byes)),
        length-written_append sdes (apps ++ byes),
        length-written_append apps byes,
      )

  pub parts-AllSound : built_length b ≤ 262144 → AllSound (parts b)
  unfolding parts
  parts-AllSound f =
      let reports : List Part =
        report_parts (suc (length b.report.reportblocks)) b.report true b.report.reportblocks in
      let sdes : List Part = sdes_parts (length b.sdessources) b.sdessources in
      let apps : List Part = map (λ p. (204, p)) b.apppackets in
      let byes : List Part = map (λ p. (203, p)) b.byepackets in
      let at_least : 8 ≤ report_bytes b.report = report_bytes-least b.report s in
      All-append (λ p. Sound p.0 p.1) reports _ reports_made.0
        (All-append (λ p. Sound p.0 p.1) sdes _
          (sdes_parts-AllSound (length b.sdessources) b.sdessources w.sources
            (omega (arith, sdes_bytes-sources b.sdessources)))
          (All-append (λ p. Sound p.0 p.1) apps byes (buffers-AllSound 204 b.apppackets w.apps)
            (buffers-AllSound 203 b.byepackets w.byes)))
