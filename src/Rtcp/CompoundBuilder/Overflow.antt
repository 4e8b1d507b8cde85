-- ===== src/Rtcp/CompoundBuilder/Overflow.antt =====
-- When EndBuild writes behind an external buffer.
use jrtplib.Prelude.{
  ℕ, zero, suc, ◌-◌, ◌≤◌, ◌<◌, ◌≡◌, ◌≢◌, ◌↔◌, ◌⊎◌, inl, inr, refl, true, false, List, [], ◌∷◌, ◌++◌,
  map, All, All-append, length, length-append, take, drop, ltb, ◌==◌, arith, ok, fault, Bool-cases,
}
use jrtplib.Rtcp.Packet.{RtcpPacket}
use jrtplib.Rtcp.Compound.{make_packet}
use jrtplib.Rtcp.Compound.Parts.{make_packet_returns}
use jrtplib.Rtcp.CompoundBuilder.{CompoundBuilder, new_builder, SdesSource}
use jrtplib.Rtcp.CompoundBuilder.Farewell.{packet_bytes}
use jrtplib.Rtcp.CompoundBuilder.End.{
  Part, chunks_bytes, report_parts, sdes_part, sdes_parts, written, parts, add_parts, built_length,
  capacity, finish, end_build,
}
use jrtplib.Rtcp.CompoundBuilder.Sound.{Sound, Started, length-packet_bytes}
use jrtplib.Rtcp.CompoundBuilder.Lengths.{AllSound, buffers-AllSound}
use jrtplib.Rtcp.CompoundBuilder.Parts.{reports_made, length-parts}
use jrtplib.Rtcp.CompoundBuilder.RoundTrip.{Started-header, end_build-finish}
use jrtplib.Rtcp.CompoundBuilder.WellFormed.{WellFormed, Call, CallFits, run_calls}
use jrtplib.Rtcp.CompoundBuilder.WellFormed.Runs.{run_calls-WellFormed}

-- An object can be made of the packet.
CanMake : Part → Type 0
CanMake p = (q : RtcpPacket) × (make_packet p.0 p.1 ≡ ok q)

Sound-CanMake : (ps : List Part) → AllSound ps → All CanMake ps
unfolding CanMake
Sound-CanMake [] a = tt
Sound-CanMake (p ∷ ps) (s, a) = ((s.object, s.made), Sound-CanMake ps a)

sdes_part-CanMake : (ss : List SdesSource) → CanMake (sdes_part ss)
unfolding sdes_part CanMake
sdes_part-CanMake ss =
    let (p, e, d) =
      make_packet_returns 202 (packet_bytes (length ss) 202 (chunks_bytes 4 ss))
        (omega (arith, length-packet_bytes (length ss) 202 (chunks_bytes 4 ss))) in
    (p, e)

sdes_parts-CanMake : (fuel : ℕ) (ss : List SdesSource) → All CanMake (sdes_parts fuel ss)
unfolding sdes_parts
sdes_parts-CanMake zero ss = tt
sdes_parts-CanMake (suc fuel) ss = elim (Bool-cases (length ss == 0)) [
  | inl e ↦ rw e tt
  | inr e ↦ rw e (sdes_part-CanMake (take 31 ss), sdes_parts-CanMake fuel (drop 31 ss))
]

parts-CanMake : (b : CompoundBuilder) → WellFormed b → Started b.report → All CanMake (parts b)
unfolding parts
parts-CanMake b w s =
    let reports : List Part =
      report_parts (suc (length b.report.reportblocks)) b.report true b.report.reportblocks in
    let sdes : List Part = sdes_parts (length b.sdessources) b.sdessources in
    let apps : List Part = map (λ p. (204, p)) b.apppackets in
    let byes : List Part = map (λ p. (203, p)) b.byepackets in
    All-append CanMake reports (sdes ++ (apps ++ byes))
      (Sound-CanMake reports (reports_made b w s).0)
      (All-append CanMake sdes (apps ++ byes)
        (sdes_parts-CanMake (length b.sdessources) b.sdessources)
        (Sound-CanMake (apps ++ byes) (
          All-append (λ p. Sound p.0 p.1) apps byes (buffers-AllSound 204 b.apppackets w.apps)
            (buffers-AllSound 203 b.byepackets w.byes))))

-- With memory for the objects, the loops fault exactly if the packets do not fit into the buffer.
add_parts-fault :
    (room left : ℕ) (ps : List Part)
    → All CanMake ps
    → length ps ≤ room
    → ((length (written ps) ≤ left) × ((out : List RtcpPacket) × (add_parts room left ps ≡ ok out)))
      ⊎ ((left < length (written ps)) × (add_parts room left ps ≡ fault))
unfolding add_parts CanMake
add_parts-fault room left [] a r = inl (omega arith, ([], refl))
add_parts-fault room left ((t, bytes) ∷ ps) ((q, made), a) r =
    let both = length-append bytes (written ps) in
    let some_room : (room == 0) ≡ false = ground arith in
    elim (Bool-cases (ltb left (length bytes))) [
      | inl big ↦ inr (ground arith, rw big refl)
      | inr small ↦ elim (add_parts-fault (room - 1) (left - length bytes) ps a (omega arith)) [
        | inl (fits, (out, e)) ↦ inl (ground arith, (q ∷ out, rw (small, some_room, made, e) refl))
        | inr (over, e) ↦ inr (ground arith, rw (small, some_room, made, e) refl)
      ]
    ]

ok_not_fault : {A : Type 0} {a : A} → ok a ≢ fault
ok_not_fault e = cc

-- After any run of calls on a new RTCPCompoundPacketBuilder that leaves a build with a report, EndBuild, with
-- memory for all it allocates, writes behind its buffer exactly if the buffer is external and shorter
-- than the packet; otherwise it succeeds.
pub end_build_overflow :
    (cs : List Call) (room : ℕ)
    → All CallFits cs
    → (run_calls new_builder cs).arebuilding ≡ true
    → (run_calls new_builder cs).report.headerlength ≢ 0
    → length (parts (run_calls new_builder cs)) ≤ room
    → (((end_build (run_calls new_builder cs) true room).1 ≡ fault) ↔ (
        ((run_calls new_builder cs).external ≡ true)
        × ((run_calls new_builder cs).maximumpacketsize < built_length (run_calls new_builder cs))))
      × (((end_build (run_calls new_builder cs) true room).1 ≡ fault)
          ⊎ ((end_build (run_calls new_builder cs) true room).1 ≡ ok tt))
unfolding finish
end_build_overflow cs room a on h r =
    go (run_calls new_builder cs) (run_calls-WellFormed cs a) on h r
  where
    go :
        (b : CompoundBuilder)
        → WellFormed b
        → b.arebuilding ≡ true
        → b.report.headerlength ≢ 0
        → length (parts b) ≤ room
        → (((end_build b true room).1 ≡ fault)
            ↔ ((b.external ≡ true) × (b.maximumpacketsize < built_length b)))
          × (((end_build b true room).1 ≡ fault) ⊎ ((end_build b true room).1 ≡ ok tt))
    go b w on h r =
        let s = Started-header b w h in
        let size = length-parts b w s in
        rw (end_build-finish b room on h)
          (elim (add_parts-fault room (capacity b) (parts b) (parts-CanMake b w s) r) [
            | inl (fits, (out, e)) ↦
                rw e ((λ q. absurd (ok_not_fault q), λ (x, l). absurd (ground arith)), inr refl)
            | inr (over, e) ↦ rw e ((λ q. ground arith, λ x. refl), inl refl)
          ])
