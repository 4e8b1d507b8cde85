-- ===== src/Builder/Order.antt =====
-- A run of BuildPacket calls numbers the packets that it sends one after the other, and counts them.
use jrtplib.Prelude.{
  ℕ, suc, ◌+◌, ◌%◌, ◌^◌, ◌<◌, ◌≡◌, ◌⊎◌, inl, inr, refl, ◌∙◌, true, List, [], ◌∷◌, length, All, ok,
  err, fault, arith, ◌≢◌,
}
use jrtplib.Rtp.RawPacket.{raw_packet}
use jrtplib.Rtp.Packet.{RtpPacket, get_sequence_number}
use jrtplib.Rtp.Packet.Parse.{parse_raw_packet}
use jrtplib.Builder.{PacketBuilder, Status}
use jrtplib.Builder.Calls.{builder_args}
use jrtplib.Builder.Stream.{
  Call, used, sent_bytes, build_call, send_all, SenderInRange, CallInRange, built_call, failed_call,
  Advanced, packet_built-Advanced, build_call_carries,
}

-- A received packet with this SSRC and sequence number.
abbrev pub Numbered : ℕ → ℕ → List ℕ → Type 0
Numbered ssrc s bytes =
    (q : RtpPacket) × (parse_raw_packet (raw_packet bytes true) ≡ ok q)
    × (q.ssrc ≡ ssrc)
    × (get_sequence_number q ≡ s)

abbrev pub InSequence : ℕ → ℕ → List (List ℕ) → Type 0
InSequence ssrc s [] = Unit
InSequence ssrc s (x ∷ xs) = Numbered ssrc s x × InSequence ssrc ((s + 1) % 65536) xs

Status-cases : (s : Status) → (s ≡ ok tt) ⊎ (s ≢ ok tt)
Status-cases (ok _) = inl refl
Status-cases (err e) = inr (λ p. cc)
Status-cases fault = inr (λ p. cc)

module _ {Time : Type 0} where
  -- The state after a run: what has been sent is counted.
  pub record Counted (b b' : PacketBuilder Time) (n : ℕ) : Type 0 where
    pub seqnr : b'.seqnr ≡ (b.seqnr + n) % 65536
    pub numpackets : b'.numpackets ≡ (b.numpackets + n) % 2 ^ 32
    pub ssrc : b'.ssrc ≡ b.ssrc

  -- What the induction needs of each state.
  record Ready (b : PacketBuilder Time) : Type 0 where
    range : SenderInRange b
    small : b.maxpacksize < 2 ^ 31

  Advanced-Ready :
      (b b' : PacketBuilder Time) (inc : ℕ) (p : RtpPacket)
      → Advanced b b' inc p
      → Ready b
      → Ready b'
  Advanced-Ready b b' inc p a r = record {
    range = record {
      seqnr = rw a.seqnr (omega arith);
      timestamp = rw a.timestamp (omega arith);
      ssrc = rw a.ssrc r.range.ssrc;
      numpackets = rw a.numpackets (omega arith);
      csrcs = rw a.csrcs r.range.csrcs;
    };
    small = rw a.maxpacksize r.small;
  }

  call_sends :
      (b : PacketBuilder Time) (c : Call Time)
      → Ready b
      → CallInRange c
      → (build_call b c).1 ≡ ok tt
      → Numbered b.ssrc b.seqnr (sent_bytes (build_call b c).0)
        × Counted b (build_call b c).0 1
        × Ready (build_call b c).0
  call_sends b c r k e =
      let (_, _, _, (q, eq, reads)) = build_call_carries b c r.range r.small k e in
      let (p, built, after, _) = built_call b c e in
      let a = packet_built-Advanced b p (used b c.given).timestampinc c.now in
      (
        (q, eq, unfold builder_args in reads.ssrc, unfold builder_args in reads.seqnr),
        rw after (record { seqnr = a.seqnr; numpackets = a.numpackets; ssrc = a.ssrc }),
        rw after (Advanced-Ready b _ (used b c.given).timestampinc p a r),
      )

  send_all_ok :
      (b : PacketBuilder Time) (c : Call Time) (cs : List (Call Time))
      → (build_call b c).1 ≡ ok tt
      → send_all b (c ∷ cs) ≡ (
        (send_all (build_call b c).0 cs).0,
        sent_bytes (build_call b c).0 ∷ (send_all (build_call b c).0 cs).1,
      )
  unfolding send_all
  send_all_ok b c cs e = rw (e, send_all) refl

  send_all_failed :
      (b : PacketBuilder Time) (c : Call Time) (cs : List (Call Time))
      → (build_call b c).1 ≢ ok tt
      → send_all b (c ∷ cs) ≡ send_all b cs
  unfolding send_all
  send_all_failed b c cs ne = ground (arith, failed_call b c ne)

  Counted-step :
      (b b' b'' : PacketBuilder Time) (n : ℕ)
      → Counted b b' 1
      → Counted b' b'' n
      → Counted b b'' (suc n)
  Counted-step b b' b'' n h k = record {
    seqnr = omega (arith, h.seqnr, k.seqnr);
    numpackets = omega (arith, h.numpackets, k.numpackets);
    ssrc = k.ssrc ∙ h.ssrc;
  }

  sends :
      (cs : List (Call Time)) (b : PacketBuilder Time)
      → Ready b
      → All CallInRange cs
      → InSequence b.ssrc b.seqnr (send_all b cs).1
        × Counted b (send_all b cs).0 (length (send_all b cs).1)
  sends [] b r ks =
      unfold send_all in (tt, record { seqnr = omega arith; numpackets = omega arith; ssrc = refl })
  sends (c ∷ cs) b r ks = elim (Status-cases (build_call b c).1) [
    | inl e ↦
        let (numbered, counted, ready) = call_sends b c r ks.0 e in
        let (later, total) = sends cs (build_call b c).0 ready ks.1 in
        rw (send_all_ok b c cs e) (
          (numbered, rw (counted.ssrc, counted.seqnr) at later),
          Counted-step b (build_call b c).0 _ _ counted total,
        )
    | inr ne ↦ rw (send_all_failed b c cs ne) (sends cs b r ks.1)
  ]

  -- Of a run of BuildPacket and BuildPacketEx calls, in all four overloads and failed calls among
  -- them, the packets that are sent are accepted by a receiver and carry the builder's SSRC and
  -- consecutive sequence numbers, from the builder's own on and modulo 2^16; after the run the
  -- sequence number and the packet count (modulo 2^32) have grown by the number of packets sent.
  -- The builder's numbers and the extension identifiers have their widths, and the maximum packet
  -- size is below 2^31.
  pub send_all-InSequence :
      (b : PacketBuilder Time) (cs : List (Call Time))
      → SenderInRange b
      → b.maxpacksize < 2 ^ 31
      → All CallInRange cs
      → InSequence b.ssrc b.seqnr (send_all b cs).1
        × Counted b (send_all b cs).0 (length (send_all b cs).1)
  send_all-InSequence b cs s small ks = sends cs b (record { range = s; small = small }) ks
