-- ===== src/Tests/Source.antt =====
-- A source: its sequence numbers, probation and queue. Times are whole seconds.
use jrtplib.Prelude.{
  take, drop, ℕ, ◌+◌, ◌-◌, ◌/◌, ◌%◌, ◌^◌, ◌≡◌, ◌↔◌, ◌⊎◌, refl, inl, inr, true, false, List, [], ◌∷◌,
  map, none, ltb, arith,
}
use jrtplib.Rtp.Packet.{RtpPacket}
use jrtplib.Source.Doubles.{DoubleOps}
use jrtplib.Source.Stats.{SourceStats, process_packet, timestamp_diff, ahead}
use jrtplib.Source.Extension.{
  Arrival, Tracks, receive, receive_all, receive_all-Orderly, first_packet-Tracks,
  late_packet_adds_cycle,
}
use jrtplib.Source.Probation.{Waiting, ThirdInRow, process_packet_probation}
use jrtplib.Source.Jitter.{Leads, timestamp_diff_exact, timestamp_diff-Leads}
use jrtplib.Source.Data.{SourceData, probation_store, insert_packet, process_rtp_packet}
use jrtplib.Source.Insertion.{Ascending, Waits, insert_packet-Ascending}
use jrtplib.Source.Queue.{QueueOk, process_rtp_packet-QueueOk}
use jrtplib.Source.Delivery.{take_packets, AllBelow, take_packets_in_order}

abbrev ops : DoubleOps ℕ
ops = record {
  of_uint32 = λ n. n;
  to_uint32 = λ n. n;
  neg = λ n. 0;
  add = λ m n. m + n;
  sub = λ m n. m - n;
  div = λ m n. m / n;
  lt = ltb;
}

abbrev packet : ℕ → RtpPacket
packet n = record {
  hasextension = false;
  hasmarker = false;
  numcsrcs = 0;
  payloadtype = 0;
  extseqnr = n;
  timestamp = 0;
  ssrc = 9;
  packet = [];
  payload = 12;
  payloadlength = 0;
  extid = 0;
  extension = none;
  extensionlength = 0;
  externalbuffer = false;
}

abbrev arrival : ℕ → Arrival ℕ
arrival n = record {
  number = n;
  packet = packet (n % 65536);
  time = 1;
  tsunit = 0;
  own = false;
  applyprobation = false;
}

-- Statistics that count from 131080, two cycles and eight.
abbrev counting : SourceStats ℕ
counting = record {
  sentdata = true;
  packetsreceived = 1;
  numcycles = 131072;
  baseseqnr = 0;
  exthighseqnr = 131080;
  prevexthighseqnr = 0;
  jitter = 0;
  prevtimestamp = 0;
  djitter = 0;
  prevpacktime = 0;
  lastmsgtime = 0;
  lastrtptime = 0;
  lastnotetime = 0;
  numnewpackets = 1;
  savedextseqnr = 0;
  prevseqnr = 0;
  probation = 0;
}

counting-Tracks : Tracks ops counting 131080
counting-Tracks = record { sending = refl; holds = (refl, refl) }

-- A gap, a late packet, and a packet of the next cycle.
abbrev run : List (Arrival ℕ)
run = arrival 131090 ∷ arrival 131085 ∷ arrival 163000 ∷ arrival 195000 ∷ arrival 196700 ∷ []

receive_all-Orderly_example : receive_all ops counting run ≡ map (λ a. a.number % 2 ^ 32) run
receive_all-Orderly_example = receive_all-Orderly ops counting 131080 run counting-Tracks (
  refl,
  inl (omega arith, omega arith),
  (
    refl,
    inr (omega arith, omega arith, refl),
    (
      refl,
      inl (omega arith, omega arith),
      (refl, inl (omega arith, omega arith), (refl, inl (omega arith, omega arith), tt)),
    ),
  ),
)

abbrev fresh : SourceStats ℕ
fresh = record counting { sentdata = false; numcycles = 0; exthighseqnr = 0 }

first_packet-Tracks_example :
    ((receive ops fresh (arrival 0)).packet.extseqnr ≡ 65536)
    × ((receive ops fresh (arrival 0)).accept ≡ true)
    × Tracks ops (receive ops fresh (arrival 0)).stats 65536
first_packet-Tracks_example = first_packet-Tracks ops fresh (arrival 0) refl refl refl (omega arith)

late_packet_adds_cycle_example :
    ((receive ops counting (arrival 131070)).packet.extseqnr ≡ (131070 + 65536) % 2 ^ 32)
    × ((receive ops (receive ops counting (arrival 131070)).stats (arrival 131081)).packet.extseqnr
        ≡ (131080 + 1 + 65536) % 2 ^ 32)
late_packet_adds_cycle_example =
    late_packet_adds_cycle ops counting 131080 (arrival 131070) (arrival 131081) counting-Tracks
      refl refl (omega arith) (omega arith) refl refl

-- Two packets in a row have come: one more is needed.
abbrev waiting : SourceStats ℕ
waiting = record fresh { probation = 1; prevseqnr = 0 }

waiting-Waiting : Waiting ops waiting (0 ∷ 65535 ∷ [])
waiting-Waiting = record { fresh = refl; counter = (refl, refl) }

process_packet_probation_example :
    let r = process_packet ops waiting (packet 1) 5 0 false true in
    (r.accept ≡ true ↔ ThirdInRow (0 ∷ 65535 ∷ []) 1)
    × (r.accept ≡ false
        → (r.onprobation ≡ true) × (r.packet ≡ packet 1) × Waiting ops r.stats (1 ∷ 0 ∷ 65535 ∷ []))
process_packet_probation_example =
    process_packet_probation ops waiting (0 ∷ 65535 ∷ []) (packet 1) 5 0 false waiting-Waiting
      (omega arith)

timestamp_diff_exact_example :
    timestamp_diff (4294967396 % 2 ^ 32) (4294967200 % 2 ^ 32) ≡ ahead 196
timestamp_diff_exact_example =
    timestamp_diff_exact 4294967396 4294967200 (omega arith) (omega arith)

timestamp_diff-Leads_example : Leads 100 4294967200 (timestamp_diff 100 4294967200)
timestamp_diff-Leads_example = timestamp_diff-Leads 100 4294967200 (omega arith) (omega arith)

abbrev queue : List RtpPacket
queue = packet 5 ∷ packet 8 ∷ []

queue-Ascending : Ascending queue
queue-Ascending = ((omega arith, tt), (tt, tt))

insert_packet-Ascending_example :
    Ascending (insert_packet queue (packet 6)).0
    × ((insert_packet queue (packet 6)).1 ≡ true ↔ ¬ Waits 6 queue)
    × ((n : ℕ) → Waits n (insert_packet queue (packet 6)).0 ↔ ((n ≡ 6) ⊎ Waits n queue))
insert_packet-Ascending_example = insert_packet-Ascending queue (packet 6) queue-Ascending

abbrev source : SourceData ℕ
source = record {
  packetlist = queue;
  ssrc = 9;
  ownssrc = false;
  iscsrc = false;
  timestampunit = 1;
  receivedbye = false;
  validated = true;
  processedinrtcp = false;
  issender = false;
  stats = counting;
  sdesinf = record { nonprivateitems = [] ∷ [] ∷ [] ∷ [] ∷ [] ∷ [] ∷ [] ∷ []; privitems = [] };
  byetime = 0;
  byereason = none;
  probationtype = probation_store;
}

source-QueueOk : QueueOk ops source
source-QueueOk = record { sorted = queue-Ascending; short = λ e. omega arith }

process_rtp_packet-QueueOk_example :
    QueueOk ops (process_rtp_packet ops source (packet 7) 2 1 false).source
process_rtp_packet-QueueOk_example =
    process_rtp_packet-QueueOk ops source (packet 7) 2 1 false source-QueueOk

take_packets_in_order_example :
    (true ≡ true
      → take_packets ops 2 source ≡ (take 2 queue, record source { packetlist = drop 2 queue }))
    × (true ≡ false → take_packets ops 2 source ≡ ([], source))
    × Ascending (take_packets ops 2 source).0
    × AllBelow ops (take_packets ops 2 source).0 (take_packets ops 2 source).1.packetlist
    × QueueOk ops (take_packets ops 2 source).1
take_packets_in_order_example = take_packets_in_order ops source 2 source-QueueOk
