-- ===== src/Source/Delivery.antt =====
-- What an application gets that takes packets of a source: runs of GetNextPacket.
use jrtplib.Prelude.{
  All-take, All-drop, not, if◌then◌else◌, ℕ, zero, suc, ◌≡◌, refl, ap, ap₂, ◌∙◌, true, false, List,
  [], ◌∷◌, Option, none, some, take, drop, All, ◌<◌, Bool-cases, inl, inr,
}
use jrtplib.Rtp.Packet.{RtpPacket}
use jrtplib.Source.Doubles.{DoubleOps}
use jrtplib.Source.Data.{SourceData, get_next_packet}
use jrtplib.Source.Insertion.{AllAbove, Ascending}
use jrtplib.Source.Queue.{QueueOk}

module _ {Double : Type 0} (ops : DoubleOps Double) where
  -- What a call hands out, in front of what the later calls hand out.
  abbrev pub in_front :
      Option RtpPacket → List RtpPacket × SourceData Double → List RtpPacket × SourceData Double
  in_front none later = later
  in_front (some p) later = (p ∷ later.0, later.1)

  -- The packets that this many calls of GetNextPacket hand out, and the source behind them.
  unfoldable pub take_packets : ℕ → SourceData Double → List RtpPacket × SourceData Double
  unfolding get_next_packet
  take_packets zero d = ([], d)
  take_packets (suc n) d =
      let next = get_next_packet ops d in in_front next.0 (take_packets n next.1)

  -- Each of the numbers is below each of the others.
  abbrev pub AllBelow : List RtpPacket → List RtpPacket → Type 0
  AllBelow handed left = All (λ p. AllAbove p.extseqnr left) handed

  take_packets_step :
      (n : ℕ) (d d' : SourceData Double) (o : Option RtpPacket)
      → get_next_packet ops d ≡ (o, d')
      → take_packets (suc n) d ≡ in_front o (take_packets n d')
  unfolding take_packets
  take_packets_step n d d' o e = ap (λ next. in_front next.0 (take_packets n next.1)) e

  nothing_next : (d : SourceData Double) → d.validated ≡ false → get_next_packet ops d ≡ (none, d)
  unfolding get_next_packet
  nothing_next d e =
      let found : Option RtpPacket × SourceData Double = elim d.packetlist [
        | [] ↦ (none, d)
        | p ∷ rest ↦ (some p, record d { packetlist = rest })
      ] in
      ap (λ v. if not v then (none, d) else found) e

  first_next :
      (queue : List RtpPacket) (p : RtpPacket) (d : SourceData Double)
      → d.validated ≡ true
      → get_next_packet ops (record d { packetlist = p ∷ queue })
        ≡ (some p, record d { packetlist = queue })
  unfolding get_next_packet
  first_next queue p d e =
      let found : Option RtpPacket × SourceData Double =
        (some p, record d { packetlist = queue }) in
      ap (λ v. if not v then (none, record d { packetlist = p ∷ queue }) else found) e

  empty_next :
      (d : SourceData Double)
      → d.validated ≡ true
      → get_next_packet ops (record d { packetlist = [] }) ≡ (none, record d { packetlist = [] })
  unfolding get_next_packet
  empty_next d e =
      let nothing : Option RtpPacket × SourceData Double = (none, record d { packetlist = [] }) in
      ap (λ v. if not v then nothing else nothing) e

  not_validated : (n : ℕ) (d : SourceData Double) → d.validated ≡ false → take_packets n d ≡ ([], d)
  unfolding take_packets
  not_validated zero d e = refl
  not_validated (suc n) d e = take_packets_step n d d none (nothing_next d e) ∙ not_validated n d e

  take_none : (n : ℕ) → take {A = RtpPacket} n [] ≡ []
  take_none zero = refl
  take_none (suc n) = refl

  drop_none : (n : ℕ) → drop {A = RtpPacket} n [] ≡ []
  drop_none zero = refl
  drop_none (suc n) = refl

  first_packets :
      (n : ℕ) (queue : List RtpPacket) (d : SourceData Double)
      → d.validated ≡ true
      → take_packets n (record d { packetlist = queue })
        ≡ (take n queue, record d { packetlist = drop n queue })
  unfolding take_packets
  first_packets zero queue d e = refl
  first_packets (suc n) [] d e =
      let left : SourceData Double = record d { packetlist = [] } in
      let both : List RtpPacket → List RtpPacket → List RtpPacket × SourceData Double =
        λ xs ys. (xs, record d { packetlist = ys }) in
      take_packets_step n left left none (empty_next d e)
      ∙ first_packets n [] d e
      ∙ ap₂ both (take_none n) (drop_none n)
  first_packets (suc n) (p ∷ queue) d e =
      take_packets_step n (record d { packetlist = p ∷ queue }) (record d { packetlist = queue })
        (some p) (first_next queue p d e)
      ∙ ap (in_front (some p)) (first_packets n queue d e)

  Ascending-drop : (n : ℕ) (queue : List RtpPacket) → Ascending queue → Ascending (drop n queue)
  Ascending-drop zero queue s = s
  Ascending-drop (suc n) [] s = tt
  Ascending-drop (suc n) (p ∷ queue) s = Ascending-drop n queue s.1

  Ascending-take : (n : ℕ) (queue : List RtpPacket) → Ascending queue → Ascending (take n queue)
  Ascending-take zero queue s = tt
  Ascending-take (suc n) [] s = tt
  Ascending-take (suc n) (p ∷ queue) s =
      (All-take (λ p'. p.extseqnr < p'.extseqnr) n queue s.0, Ascending-take n queue s.1)

  AllBelow-take :
      (n : ℕ) (queue : List RtpPacket) → Ascending queue → AllBelow (take n queue) (drop n queue)
  AllBelow-take zero queue s = tt
  AllBelow-take (suc n) [] s = tt
  AllBelow-take (suc n) (p ∷ queue) s =
      (All-drop (λ p'. p.extseqnr < p'.extseqnr) n queue s.0, AllBelow-take n queue s.1)

  -- From a queue in order, n calls of GetNextPacket on a validated source hand out the first n
  -- packets of the queue (all of them, if n is not less than their number), leave the others and
  -- change nothing else; on a source that is not validated they hand out nothing and change nothing.
  -- What is handed out has ascending numbers, below all that are left, and the queue stays in order.
  pub take_packets_in_order :
      (d : SourceData Double) (n : ℕ)
      → QueueOk ops d
      → (d.validated ≡ true
          → take_packets n d ≡ (take n d.packetlist, record d { packetlist = drop n d.packetlist }))
        × (d.validated ≡ false → take_packets n d ≡ ([], d))
        × Ascending (take_packets n d).0
        × AllBelow (take_packets n d).0 (take_packets n d).1.packetlist
        × QueueOk ops (take_packets n d).1
  take_packets_in_order d n q =
      let queue = d.packetlist in
      elim (Bool-cases d.validated) [
        | inl e ↦
            let all = first_packets n queue d e in
            (
              λ _. all,
              λ f. cc,
              rw all (Ascending-take n queue q.sorted),
              rw all (AllBelow-take n queue q.sorted),
              rw all (record { sorted = Ascending-drop n queue q.sorted; short = λ f. cc }),
            )
        | inr e ↦
            let none' = not_validated n d e in
            (λ f. cc, λ _. none', rw none' tt, rw none' tt, rw none' q)
      ]
