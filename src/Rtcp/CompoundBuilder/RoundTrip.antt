-- ===== src/Rtcp/CompoundBuilder/RoundTrip.antt =====
-- What RTCPCompoundPacketBuilder builds, RTCPCompoundPacket parses.
use jrtplib.Prelude.{
  ℕ, ◌≤◌, ◌≡◌, ◌≢◌, inl, inr, refl, ap, sym, subst, true, false, not, ◌&&◌, List, [], ◌++◌, some,
  All, length, ◌==◌, arith, ok,
}
use jrtplib.Rtcp.Compound.{parse_data}
use jrtplib.Rtcp.Compound.Loop.{parse_data-Packets}
use jrtplib.Rtcp.CompoundBuilder.{CompoundBuilder, new_builder, Step}
use jrtplib.Rtcp.CompoundBuilder.End.{
  written, parts, add_parts, built_length, capacity, finish, end_build,
}
use jrtplib.Rtcp.CompoundBuilder.Sound.{Started}
use jrtplib.Rtcp.CompoundBuilder.WellFormed.{WellFormed, Call, CallFits, run_calls}
use jrtplib.Rtcp.CompoundBuilder.WellFormed.Runs.{run_calls-WellFormed}
use jrtplib.Rtcp.CompoundBuilder.Parts.{
  AllKnown, Made, add_parts-Made, parts-Leads, length-parts, parts-AllSound,
}

pub Started-header :
    (b : CompoundBuilder) → WellFormed b → b.report.headerlength ≢ 0 → Started b.report
Started-header b w h = elim w.header [ inl (z, n) ↦ absurd (h z) | inr s ↦ s ]

pub end_build-finish :
    (b : CompoundBuilder) (room : ℕ)
    → b.arebuilding ≡ true
    → b.report.headerlength ≢ 0
    → end_build b true room ≡ finish b (add_parts room (capacity b) (parts b))
unfolding end_build
end_build-finish b room on h =
    let got : (b.report.headerlength == 0) ≡ false = ground arith in
    let given : (not b.external && not true) ≡ false = ground arith in
    let building : not b.arebuilding ≡ false = ap not on in rw (building, got, given) refl

-- What a call of EndBuild leaves that has built a packet.
pub record Built (s : Step) : Type 0 where
  pub bytes : List ℕ
  pub status : s.1 ≡ ok tt
  pub packet : s.0.compoundpacket ≡ some bytes
  pub size : s.0.compoundpacketlength ≡ length bytes
  pub known : AllKnown s.0.rtcppacklist
  pub parsed : parse_data (length s.0.rtcppacklist) bytes ≡ ok s.0.rtcppacklist

-- After any run of calls on a new RTCPCompoundPacketBuilder that leaves a build with a report, EndBuild, with
-- memory for all it allocates and a buffer that is long enough, succeeds if the packet is at most
-- 2^18 bytes long: the packet has the reckoned length, all its RTCP packets are of a known format, and
-- RTCPCompoundPacket's parser makes the same list of RTCP packets of it.
pub end_build-Built :
    (cs : List Call) (room : ℕ)
    → All CallFits cs
    → (run_calls new_builder cs).arebuilding ≡ true
    → (run_calls new_builder cs).report.headerlength ≢ 0
    → built_length (run_calls new_builder cs) ≤ capacity (run_calls new_builder cs)
    → built_length (run_calls new_builder cs) ≤ 262144
    → length (parts (run_calls new_builder cs)) ≤ room
    → Built (end_build (run_calls new_builder cs) true room)
unfolding Made finish
end_build-Built cs room a on h fits short r =
    go (run_calls new_builder cs) (run_calls-WellFormed cs a) on h fits short r
  where
    go :
        (b : CompoundBuilder)
        → WellFormed b
        → b.arebuilding ≡ true
        → b.report.headerlength ≢ 0
        → built_length b ≤ capacity b
        → built_length b ≤ 262144
        → length (parts b) ≤ room
        → Built (end_build b true room)
    go b w on h fits short r =
        let s = Started-header b w h in
        let (ps, e, n, k, c) =
          add_parts-Made room (capacity b) true (parts b) (parts-Leads b)
            (parts-AllSound b w s short) r (omega (arith, length-parts b w s)) in
        let fresh : b.rtcppacklist ≡ [] = (w.unbuilt on).1 in
        let listed : b.rtcppacklist ++ ps ≡ ps = ap (λ x. x ++ ps) fresh in
        let parsed =
          ((parse_data-Packets (length ps) (written (parts b))).1 ps).1 (omega arith, c) in
        rw (end_build-finish b room on h, e)
          (record {
            bytes = written (parts b);
            status = refl;
            packet = refl;
            size = sym (length-parts b w s);
            known = subst AllKnown (sym listed) k;
            parsed =
                subst (λ x. parse_data (length x) (written (parts b)) ≡ ok x) (sym listed) parsed;
          })
