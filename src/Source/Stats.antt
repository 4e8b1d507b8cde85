-- ===== src/Source/Stats.antt =====
-- RTPSourceStats::ProcessPacket (src/rtpsourcedata.cpp), with probation compiled in.
use jrtplib.Prelude.{
  ℕ, zero, suc, ◌+◌, ◌-◌, ◌%◌, ◌^◌, Bool, true, false, ltb, leb, ◌==◌, if◌then◌else◌,
}
use jrtplib.Rtp.Packet.{RtpPacket}
use jrtplib.Source.Doubles.{DoubleOps}

pub record SourceStats (Double : Type 0) : Type 0 where
  pub sentdata : Bool
  pub packetsreceived : ℕ
  pub numcycles : ℕ
  pub baseseqnr : ℕ
  pub exthighseqnr : ℕ
  pub prevexthighseqnr : ℕ
  pub jitter : ℕ
  pub prevtimestamp : ℕ
  pub djitter : Double
  pub prevpacktime : Double
  pub lastmsgtime : Double
  pub lastrtptime : Double
  pub lastnotetime : Double
  pub numnewpackets : ℕ
  pub savedextseqnr : ℕ
  pub prevseqnr : ℕ
  pub probation : ℕ

-- The sequence number state of ProcessPacket, and the number given to the packet.
pub record Extended : Type 0 where
  pub numcycles : ℕ
  pub exthighseqnr : ℕ
  pub extseqnr : ℕ

-- Extending the packet's sequence number once packets have been received.
unfoldable pub extend : ℕ → ℕ → ℕ → Extended
extend numcycles exthighseqnr seq =
    let maxseq16 = exthighseqnr % 65536 in
    let dif1 = (seq % 65536 + 65536 - maxseq16) % 65536 in
    let dif2 = (maxseq16 + 65536 - seq % 65536) % 65536 in
    let next = (numcycles + 65536) % 2 ^ 32 in
    if leb maxseq16 seq
    then record {
      numcycles = numcycles;
      exthighseqnr = (numcycles + seq) % 2 ^ 32;
      extseqnr = (numcycles + seq) % 2 ^ 32;
    }
    else if ltb dif1 dif2
    then record {
      numcycles = next;
      exthighseqnr = (next + seq) % 2 ^ 32;
      extseqnr = (next + seq) % 2 ^ 32;
    }
    else record {
      numcycles = numcycles;
      exthighseqnr = exthighseqnr;
      extseqnr = (numcycles + seq) % 2 ^ 32;
    }

-- The difference of two RTP timestamps as the jitter code sees it.
pub data TimestampDiff : Type 0 where
  ahead : ℕ → TimestampDiff
  behind : ℕ → TimestampDiff

unfoldable pub timestamp_diff : ℕ → ℕ → TimestampDiff
timestamp_diff curts prevts =
    if ltb prevts curts
    then (if ltb (curts - prevts) 0x10000000
        then ahead (curts - prevts)
        else behind ((2 ^ 32 - (curts - prevts)) % 2 ^ 32))
    else if ltb curts prevts
    then (if ltb (prevts - curts) 0x10000000
        then behind (prevts - curts)
        else ahead ((2 ^ 32 - (prevts - curts)) % 2 ^ 32))
    else ahead 0

-- What ProcessPacket gives back: the statistics, the packet, `accept` and `onprobation`.
pub record Processed (Double : Type 0) : Type 0 where
  pub stats : SourceStats Double
  pub packet : RtpPacket
  pub accept : Bool
  pub onprobation : Bool

-- One round of probation: the counter, the last sequence number, whether the packet is accepted.
pub record ProbationStep : Type 0 where
  pub probation : ℕ
  pub prevseqnr : ℕ
  pub acceptpack : Bool

unfoldable pub probation_step : ℕ → ℕ → ℕ → ProbationStep
probation_step zero prevseqnr seq = record {
  probation = 2;
  prevseqnr = seq % 65536;
  acceptpack = false;
}
probation_step (suc left) prevseqnr seq =
    if (prevseqnr + 1) % 65536 == seq
    then record { probation = left; prevseqnr = seq % 65536; acceptpack = left == 0 }
    else record { probation = 2; prevseqnr = seq % 65536; acceptpack = false }

module _ {Double : Type 0} (ops : DoubleOps Double) where
  open ops use {of_uint32, to_uint32, neg, add, sub, div, lt}

  abbrev double_of : TimestampDiff → Double
  double_of (ahead n) = of_uint32 n
  double_of (behind n) = neg (of_uint32 n)

  -- The constructor.
  unfoldable pub new_stats : SourceStats Double
  new_stats = record {
    sentdata = false;
    packetsreceived = 0;
    numcycles = 0;
    baseseqnr = 0;
    exthighseqnr = 0;
    prevexthighseqnr = 0;
    jitter = 0;
    prevtimestamp = 0;
    djitter = of_uint32 0;
    prevpacktime = of_uint32 0;
    lastmsgtime = of_uint32 0;
    lastrtptime = of_uint32 0;
    lastnotetime = of_uint32 0;
    numnewpackets = 0;
    savedextseqnr = 0;
    prevseqnr = 0;
    probation = 0;
  }

  -- The macro ACCEPTPACKETCODE.
  unfoldable pub accept_first : SourceStats Double → RtpPacket → Double → Bool → Processed Double
  accept_first s pack receivetime ownpacket =
      let seq = pack.extseqnr in
      let base = if seq == 0 then 0xFFFF else seq - 1 in
      let high = (base + 1) % 2 ^ 32 in
      record {
        stats = record s {
          sentdata = true;
          packetsreceived = (s.packetsreceived + 1) % 2 ^ 32;
          numnewpackets = (s.numnewpackets + 1) % 2 ^ 32;
          baseseqnr = base;
          numcycles = if seq == 0 then 0x10000 else s.numcycles;
          exthighseqnr = high;
          prevpacktime = receivetime;
          prevexthighseqnr = base;
          savedextseqnr = base;
          prevtimestamp = pack.timestamp;
          lastmsgtime = receivetime;
          lastrtptime = if ownpacket then s.lastrtptime else receivetime;
        };
        packet = record pack { extseqnr = high };
        accept = true;
        onprobation = false;
      }

  -- The first packets of a source on probation.
  unfoldable pub process_on_probation :
      SourceStats Double → RtpPacket → Double → Bool → Processed Double
  process_on_probation s pack receivetime ownpacket =
      let round = probation_step s.probation s.prevseqnr pack.extseqnr in
      let s' = record s { probation = round.probation; prevseqnr = round.prevseqnr } in
      if round.acceptpack then accept_first s' pack receivetime ownpacket else record {
        stats = record s' { lastmsgtime = receivetime };
        packet = pack;
        accept = false;
        onprobation = true;
      }

  -- The jitter after a packet, as the double that is kept and its integer part.
  unfoldable pub next_jitter : SourceStats Double → RtpPacket → Double → Double → Double × ℕ
  next_jitter s pack receivetime tsunit =
      let diffts1 = div (sub receivetime s.prevpacktime) tsunit in
      let diffts2 = double_of (timestamp_diff pack.timestamp s.prevtimestamp) in
      let diff = sub diffts1 diffts2 in
      let positive = if lt diff (of_uint32 0) then neg diff else diff in
      let j = add s.djitter (div (sub positive s.djitter) (of_uint32 16)) in
      if lt (of_uint32 0) tsunit then (j, to_uint32 j) else (of_uint32 0, 0)

  -- A packet of a source that has already sent valid data.
  unfoldable pub process_next :
      SourceStats Double → RtpPacket → Double → Double → Bool → Processed Double
  process_next s pack receivetime tsunit ownpacket =
      let ext = extend s.numcycles s.exthighseqnr pack.extseqnr in
      let jit = next_jitter s pack receivetime tsunit in
      record {
        stats = record s {
          packetsreceived = (s.packetsreceived + 1) % 2 ^ 32;
          numnewpackets = (s.numnewpackets + 1) % 2 ^ 32;
          numcycles = ext.numcycles;
          exthighseqnr = ext.exthighseqnr;
          djitter = jit.0;
          jitter = jit.1;
          prevpacktime = receivetime;
          prevtimestamp = pack.timestamp;
          lastmsgtime = receivetime;
          lastrtptime = if ownpacket then s.lastrtptime else receivetime;
        };
        packet = record pack { extseqnr = ext.extseqnr };
        accept = true;
        onprobation = false;
      }

  unfoldable pub process_packet :
      SourceStats Double → RtpPacket → Double → Double → Bool → Bool → Processed Double
  process_packet s pack receivetime tsunit ownpacket applyprobation =
      if s.sentdata
      then process_next s pack receivetime tsunit ownpacket
      else if applyprobation
      then process_on_probation s pack receivetime ownpacket
      else accept_first s pack receivetime ownpacket

  unfoldable pub start_new_interval : SourceStats Double → SourceStats Double
  start_new_interval s = record s { numnewpackets = 0; savedextseqnr = s.exthighseqnr }
