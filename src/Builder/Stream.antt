-- ===== src/Builder/Stream.antt =====
-- The packets of one builder in the order of the calls: what they carry on the wire.
use jrtplib.Prelude.{
  ErrorCode, err, if◌then◌else◌, false, ℕ, ◌+◌, ◌%◌, ◌^◌, ◌≤◌, ◌<◌, ◌≡◌, ◌≢◌, ◌⊎◌, inl, inr, Option,
  none, some, sym, ap, ◌∙◌, not, refl, Bool, true, List, [], ◌∷◌, length, take, take-length-append,
  drop, All, ok, arith,
}
use jrtplib.Rtp.RawPacket.{raw_packet}
use jrtplib.Rtp.Packet.{RtpPacket}
use jrtplib.Rtp.Packet.Parse.{parse_raw_packet}
use jrtplib.Rtp.Packet.Build.{BuildArgs, build_packet, new_packet_in_buffer, external_buffer}
use jrtplib.Rtp.Packet.Layout.{InRange}
use jrtplib.Rtp.Packet.RoundTrip.{Reads, parse_raw_packet-build_packet}
use jrtplib.Rtp.Packet.RoundTrip.Inversion.{build_packet_size}
use jrtplib.Builder.{PacketBuilder, Status}
use jrtplib.Builder.Calls.{
  Payload, builder_args, note_time, packet_built, private_build_packet, build_packet_with,
  build_packet_default,
}

-- The payload type, the marker and the timestamp increment of a packet.
pub record Given : Type 0 where
  pub pt : ℕ
  pub mark : Bool
  pub timestampinc : ℕ

-- One call of BuildPacket or BuildPacketEx, and the time at which it is made: `given` is none in the
-- overloads that take the builder's defaults.
pub record Call (Time : Type 0) : Type 0 where
  pub payload : Payload
  pub given : Option Given
  pub now : Time

module _ {Time : Type 0} where
  -- GetPacket and GetPacketLength: the bytes that the caller sends.
  abbrev pub sent_bytes : PacketBuilder Time → List ℕ
  sent_bytes b = take b.packetlength b.buffer

  unfoldable pub build_call : PacketBuilder Time → Call Time → PacketBuilder Time × Status
  build_call b c = elim c.given [
    | none ↦ build_packet_default b c.payload c.now
    | some g ↦ build_packet_with b c.payload g.pt g.mark g.timestampinc c.now
  ]

  -- What the call gives, or the builder's defaults.
  abbrev pub used : PacketBuilder Time → Option Given → Given
  used b none = record {
    pt = b.defaultpayloadtype;
    mark = b.defaultmark;
    timestampinc = b.defaulttimestampinc;
  }
  used b (some g) = g

  -- The arguments of the packet that a call builds.
  abbrev pub call_args : PacketBuilder Time → Call Time → BuildArgs
  call_args b c = builder_args b c.payload (used b c.given).pt (used b c.given).mark

  -- A run of calls, with what is sent after each that succeeds.
  unfoldable pub send_all :
      PacketBuilder Time → List (Call Time) → PacketBuilder Time × List (List ℕ)
  send_all b [] = (b, [])
  send_all b (c ∷ cs) =
      let later = send_all (build_call b c).0 cs in
      elim (build_call b c).1 [
        | ok _ ↦ (later.0, sent_bytes (build_call b c).0 ∷ later.1)
        | _ ↦ later
      ]

  -- The ranges of the builder's numbers.
  pub record SenderInRange (b : PacketBuilder Time) : Type 0 where
    pub seqnr : b.seqnr < 65536
    pub timestamp : b.timestamp < 2 ^ 32
    pub ssrc : b.ssrc < 2 ^ 32
    pub numpackets : b.numpackets < 2 ^ 32
    pub csrcs : All (λ c. c < 4294967296) b.csrcs

  -- PrivateBuildPacket, if it succeeds, hands the packet of these arguments to the buffer, and the
  -- others leave the builder alone.
  private_built :
      (b : PacketBuilder Time) (d : Payload) (g : Given) (now : Time)
      → (private_build_packet b d g.pt g.mark g.timestampinc now).1 ≡ ok tt
      → (p : RtpPacket) × (build_packet (builder_args b d g.pt g.mark) external_buffer b.maxpacksize
          ≡ ok p)
        × ((private_build_packet b d g.pt g.mark g.timestampinc now).0
            ≡ packet_built b p g.timestampinc now)
        × (0 < b.maxpacksize)
  unfolding private_build_packet new_packet_in_buffer
  private_built b d g now e = ground arith

  private_failed :
      (b : PacketBuilder Time) (d : Payload) (g : Given) (now : Time)
      → (private_build_packet b d g.pt g.mark g.timestampinc now).1 ≢ ok tt
      → (private_build_packet b d g.pt g.mark g.timestampinc now).0 ≡ b
  unfolding private_build_packet
  private_failed b d g now e = ground arith

  -- A call that gives r fails and leaves the builder alone, or is the call that gives s.
  abbrev FailsOr : PacketBuilder Time → (r s : PacketBuilder Time × Status) → Type 0
  FailsOr b r s = ((r.0 ≡ b) × (r.1 ≢ ok tt)) ⊎ (r ≡ s)

  guarded :
      (b : PacketBuilder Time) (test : Bool) (e : ErrorCode) (r s : PacketBuilder Time × Status)
      → FailsOr b r s
      → FailsOr b (if test then (b, err e) else r) s
  guarded b true e r s h = inl (refl, λ p. cc)
  guarded b false e r s h = h

  call-cases :
      (b : PacketBuilder Time) (d : Payload) (o : Option Given) (now : Time)
      → FailsOr b
          (build_call b (record { payload = d; given = o; now = now }))
          (private_build_packet b d (used b o).pt (used b o).mark (used b o).timestampinc now)
  unfolding build_call build_packet_with build_packet_default
  call-cases b d none now = guarded b (not b.init) _ _ _ (
      guarded b (not b.defptset) _ _ _
        (guarded b (not b.defmarkset) _ _ _ (guarded b (not b.deftsset) _ _ _ (inr refl))))
  call-cases b d (some g) now = guarded b (not b.init) _ _ _ (inr refl)

  -- A successful call hands the packet of these arguments to the buffer.
  pub built_call :
      (b : PacketBuilder Time) (c : Call Time)
      → (build_call b c).1 ≡ ok tt
      → (p : RtpPacket) × (build_packet (call_args b c) external_buffer b.maxpacksize ≡ ok p)
        × ((build_call b c).0 ≡ packet_built b p (used b c.given).timestampinc c.now)
        × (0 < b.maxpacksize)
  built_call b c e = elim (call-cases b c.payload c.given c.now) [
    | inl f ↦ absurd (f.1 e)
    | inr same ↦
        rw same (private_built b c.payload (used b c.given) c.now (sym (ap (λ r. r.1) same) ∙ e))
  ]

  pub failed_call :
      (b : PacketBuilder Time) (c : Call Time) → (build_call b c).1 ≢ ok tt → (build_call b c).0 ≡ b
  failed_call b c ne = elim (call-cases b c.payload c.given c.now) [
    | inl f ↦ f.0
    | inr same ↦
        rw same
          (private_failed b c.payload (used b c.given) c.now (λ e. ne (ap (λ r. r.1) same ∙ e)))
  ]

  abbrev pub CallInRange : Call Time → Type 0
  CallInRange c = c.payload.hdrext_id < 65536

  args-InRange :
      (b : PacketBuilder Time) (c : Call Time)
      → SenderInRange b
      → CallInRange c
      → InRange (call_args b c)
  unfolding builder_args
  args-InRange b c s r = record {
    seqnr = s.seqnr;
    timestamp = s.timestamp;
    ssrc = s.ssrc;
    extensionid = r;
    words = omega arith;
    csrcs = s.csrcs;
  }

  -- The fields that a packet leaves alone, and those that it counts up.
  pub record Advanced (b b' : PacketBuilder Time) (inc : ℕ) (p : RtpPacket) : Type 0 where
    pub seqnr : b'.seqnr ≡ (b.seqnr + 1) % 65536
    pub timestamp : b'.timestamp ≡ (b.timestamp + inc) % 2 ^ 32
    pub numpackets : b'.numpackets ≡ (b.numpackets + 1) % 2 ^ 32
    pub ssrc : b'.ssrc ≡ b.ssrc
    pub csrcs : b'.csrcs ≡ b.csrcs
    pub maxpacksize : b'.maxpacksize ≡ b.maxpacksize
    pub sent : sent_bytes b' ≡ p.packet

  pub packet_built-Advanced :
      (b : PacketBuilder Time) (p : RtpPacket) (inc : ℕ) (now : Time)
      → Advanced b (packet_built b p inc now) inc p
  unfolding packet_built note_time
  packet_built-Advanced b p inc now = record {
    seqnr = refl;
    timestamp = refl;
    numpackets = refl;
    ssrc = ground arith;
    csrcs = ground arith;
    maxpacksize = ground arith;
    sent = take-length-append p.packet (drop (length p.packet) b.buffer);
  }

  pub build_call_carries :
      (b : PacketBuilder Time) (c : Call Time)
      → SenderInRange b
      → b.maxpacksize < 2 ^ 31
      → CallInRange c
      → (build_call b c).1 ≡ ok tt
      → (length (sent_bytes (build_call b c).0) ≤ b.maxpacksize)
        × ((build_call b c).0.seqnr ≡ (b.seqnr + 1) % 65536)
        × ((build_call b c).0.timestamp ≡ (b.timestamp + (used b c.given).timestampinc) % 2 ^ 32)
        × ((q : RtpPacket) × (parse_raw_packet (raw_packet (sent_bytes (build_call b c).0) true)
              ≡ ok q)
            × Reads (call_args b c) q)
  build_call_carries b c s small r e =
      let (p, built, eq, positive) = built_call b c e in
      let adv = packet_built-Advanced b p (used b c.given).timestampinc c.now in
      let fits = (build_packet_size _ external_buffer b.maxpacksize built).1 positive in
      rw (eq, adv.sent)
        (
          fits,
          adv.seqnr,
          adv.timestamp,
          parse_raw_packet-build_packet _ external_buffer b.maxpacksize built (args-InRange b c s r)
              (omega (arith, fits)),
        )
