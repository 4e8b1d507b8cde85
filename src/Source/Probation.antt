-- ===== src/Source/Probation.antt =====
-- Probation: a source that is not validated has to send packets with consecutive sequence numbers.
use jrtplib.Prelude.{
  ℕ, ◌+◌, ◌%◌, ◌<◌, ◌≡◌, ◌↔◌, inl, inr, Bool, Bool-cases, true, false, List, [], ◌∷◌, ◌==◌,
  if◌then◌else◌, arith, sym,
}
use mathlib.Core.Path.{subst₂}
use jrtplib.Rtp.Packet.{RtpPacket}
use jrtplib.Source.Doubles.{DoubleOps}
use jrtplib.Source.Stats.{
  SourceStats, probation_step, accept_first, process_on_probation, process_packet,
}

-- `b` is the sequence number that follows `a`.
abbrev pub Follows : ℕ → ℕ → Type 0
Follows a b = b ≡ (a + 1) % 65536

-- The counter and the last number after packets that were not accepted, the newest first.
abbrev pub OnProbation : ℕ → ℕ → List ℕ → Type 0
OnProbation left prev [] = left ≡ 0
OnProbation left prev (x ∷ []) = (left ≡ 2) × (prev ≡ x)
OnProbation left prev (x ∷ y ∷ older) =
    (left ≡ (if (y + 1) % 65536 == x then 1 else 2)) × (prev ≡ x)

-- The two newest numbers and this one are three in a row.
abbrev pub ThirdInRow : List ℕ → ℕ → Type 0
ThirdInRow [] s = ⊥
ThirdInRow (x ∷ []) s = ⊥
ThirdInRow (x ∷ y ∷ older) s = Follows y x × Follows x s

step_history :
    (left prev : ℕ) (seen : List ℕ) (s : ℕ)
    → OnProbation left prev seen
    → s < 65536
    → ((probation_step left prev s).acceptpack ≡ true ↔ ThirdInRow seen s)
      × ((probation_step left prev s).acceptpack ≡ false
          → OnProbation
              (probation_step left prev s).probation
              (probation_step left prev s).prevseqnr
              (s ∷ seen))
unfolding probation_step
step_history left prev [] s h k = ground arith
step_history left prev (x ∷ []) s h k = ground arith
step_history left prev (x ∷ y ∷ older) s h k = ground arith

module _ {Double : Type 0} (ops : DoubleOps Double) where
  -- The state of a source that has sent the numbers `seen`, none of them accepted.
  pub record Waiting (s : SourceStats Double) (seen : List ℕ) : Type 0 where
    pub fresh : s.sentdata ≡ false
    pub counter : OnProbation s.probation s.prevseqnr seen

  module _ (s : SourceStats Double) (pack : RtpPacket) (receivetime tsunit : Double)
      (ownpacket : Bool) (fresh : s.sentdata ≡ false) where
    accepted_round :
        (probation_step s.probation s.prevseqnr pack.extseqnr).acceptpack ≡ true
        → (process_packet ops s pack receivetime tsunit ownpacket true).accept ≡ true
    unfolding process_packet process_on_probation accept_first
    accepted_round e = ground arith

    refused_round :
        (probation_step s.probation s.prevseqnr pack.extseqnr).acceptpack ≡ false
        → let r = process_packet ops s pack receivetime tsunit ownpacket true in
          let round = probation_step s.probation s.prevseqnr pack.extseqnr in
          (r.accept ≡ false)
          × (r.onprobation ≡ true)
          × (r.packet ≡ pack)
          × (r.stats.sentdata ≡ false)
          × (r.stats.probation ≡ round.probation)
          × (r.stats.prevseqnr ≡ round.prevseqnr)
    unfolding process_packet process_on_probation
    refused_round e = ground arith

  -- A source under probation that has sent the numbers `seen` (newest first), none of them accepted,
  -- has its next packet accepted exactly if that is the third in a row of consecutive sequence
  -- numbers modulo 2^16. If it is not, the packet is on probation, its number is left as it is, and
  -- the source waits on with that number as the newest.
  pub process_packet_probation :
      (s : SourceStats Double) (seen : List ℕ) (pack : RtpPacket) (receivetime tsunit : Double)
      (ownpacket : Bool)
      → Waiting s seen
      → pack.extseqnr < 65536
      → let r = process_packet ops s pack receivetime tsunit ownpacket true in
        (r.accept ≡ true ↔ ThirdInRow seen pack.extseqnr)
        × (r.accept ≡ false
            → (r.onprobation ≡ true) × (r.packet ≡ pack) × Waiting r.stats (pack.extseqnr ∷ seen))
  process_packet_probation s seen pack receivetime tsunit ownpacket w k =
      let round = probation_step s.probation s.prevseqnr pack.extseqnr in
      let (third, waits) = step_history s.probation s.prevseqnr seen pack.extseqnr w.counter k in
      elim (Bool-cases round.acceptpack) [
        | inl e ↦
            let yes' = accepted_round s pack receivetime tsunit ownpacket w.fresh e in
            ((λ _. third.0 e, λ _. yes'), λ n. cc (yes', n))
        | inr e ↦
            let (no', prob, same, fresh, left, prev) =
              refused_round s pack receivetime tsunit ownpacket w.fresh e in
            (
              (λ y. cc (no', y), λ t. cc (e, third.1 t)),
              λ _. (
                prob,
                same,
                record {
                  fresh = fresh;
                  counter =
                      subst₂ (λ l p. OnProbation l p (pack.extseqnr ∷ seen)) (sym left) (sym prev)
                        (waits e);
                },
              ),
            )
      ]
