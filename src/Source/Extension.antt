-- ===== src/Source/Extension.antt =====
-- Extended sequence numbers: the 16 bits on the wire against the sender's true count.
use jrtplib.Prelude.{
  ℕ, ◌+◌, ◌*◌, ◌/◌, ◌%◌, ◌^◌, ◌≤◌, ◌<◌, ◌≡◌, ◌⊎◌, inl, inr, refl, ap₂, ◌∙◌, Bool, true, false, List,
  [], ◌∷◌, map, ltb, ◌==◌, if◌then◌else◌, arith,
}
use jrtplib.Rtp.Packet.{RtpPacket}
use jrtplib.Source.Doubles.{DoubleOps}
use jrtplib.Source.Stats.{
  SourceStats, Processed, extend, accept_first, process_next, process_packet,
}

-- The highest true number is `high`: what the two counters hold.
abbrev pub Holds : ℕ → ℕ → ℕ → Type 0
Holds numcycles exthighseqnr high =
    (numcycles ≡ high / 65536 * 65536 % 2 ^ 32) × (exthighseqnr ≡ high % 2 ^ 32)

-- A packet that is less than 2^15 ahead of the highest.
extend_ahead :
    (cycles ext high t : ℕ)
    → Holds cycles ext high
    → high ≤ t
    → t < high + 32768
    → ((extend cycles ext (t % 65536)).extseqnr ≡ t % 2 ^ 32)
      × Holds
          (extend cycles ext (t % 65536)).numcycles
          (extend cycles ext (t % 65536)).exthighseqnr
          t
unfolding extend
extend_ahead cycles ext high t h lo hi = ground arith

-- A late packet of the same cycle of 2^16 numbers, at most 2^15 behind.
extend_behind :
    (cycles ext high t : ℕ)
    → Holds cycles ext high
    → t < high
    → high ≤ t + 32768
    → t / 65536 ≡ high / 65536
    → ((extend cycles ext (t % 65536)).extseqnr ≡ t % 2 ^ 32)
      × Holds
          (extend cycles ext (t % 65536)).numcycles
          (extend cycles ext (t % 65536)).exthighseqnr
          high
unfolding extend
extend_behind cycles ext high t h lo hi same = ground arith

-- A late packet of the cycle before is taken for one that is 2^16 later.
extend_across :
    (cycles ext high t : ℕ)
    → Holds cycles ext high
    → t < high
    → high ≤ t + 32768
    → t / 65536 + 1 ≡ high / 65536
    → ((extend cycles ext (t % 65536)).extseqnr ≡ (t + 65536) % 2 ^ 32)
      × Holds
          (extend cycles ext (t % 65536)).numcycles
          (extend cycles ext (t % 65536)).exthighseqnr
          (t + 65536)
unfolding extend
extend_across cycles ext high t h lo hi same = ground arith

-- After such a packet the next one in order looks a cycle later too.
extend_after_across :
    (cycles ext high t : ℕ)
    → Holds cycles ext (t + 65536)
    → t < high
    → high < t + 32767
    → t / 65536 + 1 ≡ high / 65536
    → ((extend cycles ext ((high + 1) % 65536)).extseqnr ≡ (high + 1 + 65536) % 2 ^ 32)
      × Holds
          (extend cycles ext ((high + 1) % 65536)).numcycles
          (extend cycles ext ((high + 1) % 65536)).exthighseqnr
          (high + 1 + 65536)
unfolding extend
extend_after_across cycles ext high t h lo hi same = ground arith

-- A packet on its way to ProcessPacket: the sender's true number of it, of which it carries the
-- low 16 bits, and the other arguments of the call.
pub record Arrival (Double : Type 0) : Type 0 where
  pub number : ℕ
  pub packet : RtpPacket
  pub time : Double
  pub tsunit : Double
  pub own : Bool
  pub applyprobation : Bool

abbrev pub Carries : {Double : Type 0} → Arrival Double → Type 0
Carries a = a.packet.extseqnr ≡ a.number % 65536

-- Less than 2^15 ahead of the highest number, or at most 2^15 behind it in the same cycle.
abbrev pub InWindow : ℕ → ℕ → Type 0
InWindow high t =
    ((high ≤ t) × (t < high + 32768))
    ⊎ ((t < high) × (high ≤ t + 32768) × (t / 65536 ≡ high / 65536))

abbrev pub highest : ℕ → ℕ → ℕ
highest high t = if ltb high t then t else high

abbrev pub Orderly : {Double : Type 0} → ℕ → List (Arrival Double) → Type 0
Orderly high [] = Unit
Orderly high (a ∷ rest) = Carries a × InWindow high a.number × Orderly (highest high a.number) rest

extend_window :
    (cycles ext high t : ℕ)
    → Holds cycles ext high
    → InWindow high t
    → ((extend cycles ext (t % 65536)).extseqnr ≡ t % 2 ^ 32)
      × Holds
          (extend cycles ext (t % 65536)).numcycles
          (extend cycles ext (t % 65536)).exthighseqnr
          (highest high t)
extend_window cycles ext high t h (inl (lo, hi)) =
    ground (arith, extend_ahead cycles ext high t h lo hi)
extend_window cycles ext high t h (inr (lo, hi, same)) =
    ground (arith, extend_behind cycles ext high t h lo hi same)

module _ {Double : Type 0} (ops : DoubleOps Double) where
  -- The statistics have seen valid data, and count from the true number `high`.
  pub record Tracks (s : SourceStats Double) (high : ℕ) : Type 0 where
    pub sending : s.sentdata ≡ true
    pub holds : Holds s.numcycles s.exthighseqnr high

  unfoldable pub receive : SourceStats Double → Arrival Double → Processed Double
  receive s a = process_packet ops s a.packet a.time a.tsunit a.own a.applyprobation

  -- The extended sequence numbers that a run of packets is given.
  unfoldable pub receive_all : SourceStats Double → List (Arrival Double) → List ℕ
  receive_all s [] = []
  receive_all s (a ∷ rest) = (receive s a).packet.extseqnr ∷ receive_all (receive s a).stats rest

  received_next :
      (s : SourceStats Double) (a : Arrival Double)
      → s.sentdata ≡ true
      → Carries a
      → let e = extend s.numcycles s.exthighseqnr (a.number % 65536) in
        ((receive s a).packet.extseqnr ≡ e.extseqnr)
        × ((receive s a).stats.sentdata ≡ true)
        × ((receive s a).stats.numcycles ≡ e.numcycles)
        × ((receive s a).stats.exthighseqnr ≡ e.exthighseqnr)
  unfolding receive process_packet process_next
  received_next s a sent c = rw (sent, c) (refl, refl, refl, refl)

  receive-Tracks :
      (s : SourceStats Double) (high : ℕ) (a : Arrival Double)
      → Tracks s high
      → Carries a
      → InWindow high a.number
      → ((receive s a).packet.extseqnr ≡ a.number % 2 ^ 32)
        × Tracks (receive s a).stats (highest high a.number)
  receive-Tracks s high a k c w =
      let (num, sent, cyc, ext) = received_next s a k.sending c in
      let (exact, held) = extend_window s.numcycles s.exthighseqnr high a.number k.holds w in
      (num ∙ exact, record { sending = sent; holds = rw (cyc, ext) held })

  -- Packets of a source that has already sent valid data, each carrying the low 16 bits of its true
  -- number, are given the low 32 bits of their true numbers, gaps and late packets among them, as
  -- long as each is less than 2^15 ahead of the highest so far, or at most 2^15 behind it and in
  -- the same cycle of 2^16 numbers.
  pub receive_all-Orderly :
      (s : SourceStats Double) (high : ℕ) (rest : List (Arrival Double))
      → Tracks s high
      → Orderly high rest
      → receive_all s rest ≡ map (λ a. a.number % 2 ^ 32) rest
  unfolding receive_all
  receive_all-Orderly s high [] k o = refl
  receive_all-Orderly s high (a ∷ rest) k o =
      let (exact, k') = receive-Tracks s high a k o.0 o.1 in
      ap₂ ◌∷◌ exact (receive_all-Orderly (receive s a).stats (highest high a.number) rest k' o.2)

  -- The first packet of a source without probation starts the count: at its number, or at 2^16
  -- where its number is 0.
  pub first_packet-Tracks :
      (s : SourceStats Double) (a : Arrival Double)
      → s.sentdata ≡ false
      → s.numcycles ≡ 0
      → a.applyprobation ≡ false
      → a.packet.extseqnr < 65536
      → let first = (if a.packet.extseqnr == 0 then 65536 else a.packet.extseqnr) in
        ((receive s a).packet.extseqnr ≡ first)
        × ((receive s a).accept ≡ true)
        × Tracks (receive s a).stats first
  unfolding receive process_packet accept_first
  first_packet-Tracks s a fresh cycles plain small = ground arith

  -- A packet that arrives late from the cycle before, less than 2^15 - 1 behind the highest number,
  -- is given a number that is 2^16 too large, and so is the next packet in order after it.
  pub late_packet_adds_cycle :
      (s : SourceStats Double) (high : ℕ) (late next : Arrival Double)
      → Tracks s high
      → Carries late
      → Carries next
      → late.number < high
      → high < late.number + 32767
      → late.number / 65536 + 1 ≡ high / 65536
      → next.number ≡ high + 1
      → ((receive s late).packet.extseqnr ≡ (late.number + 65536) % 2 ^ 32)
        × ((receive (receive s late).stats next).packet.extseqnr ≡ (high + 1 + 65536) % 2 ^ 32)
  late_packet_adds_cycle s high late next k cl cn lo hi same en =
      let (num, sent, cyc, ext) = received_next s late k.sending cl in
      let (wrong, held) =
        extend_across s.numcycles s.exthighseqnr high late.number k.holds lo (omega arith) same in
      let (num', _, _, _) = received_next (receive s late).stats next sent cn in
      let held' : Holds (receive s late).stats.numcycles (receive s late).stats.exthighseqnr
          (late.number + 65536) =
        rw (cyc, ext) held in
      (num ∙ wrong, num' ∙ rw en (extend_after_across _ _ high late.number held' lo hi same).0)
