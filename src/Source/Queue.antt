-- ===== src/Source/Queue.antt =====
-- The queue of packets of a source: sorted by extended sequence number, without duplicates.
use jrtplib.Prelude.{
  ◌≤◌, ◌≡◌, Bool, true, false, not, ◌&&◌, ◌||◌, List, [], ◌∷◌, length, if◌then◌else◌, arith,
}
use jrtplib.Rtp.Packet.{RtpPacket}
use jrtplib.Source.Doubles.{DoubleOps}
use jrtplib.Source.Stats.{Processed, process_packet}
use jrtplib.Source.Data.{
  SourceData, make_room, enqueue, process_rtp_packet, goes_on, uses_probation,
}
use jrtplib.Source.Insertion.{Ascending, insert_packet-Ascending, length-inserted}

make_room-Ascending :
    (v : Bool) (queue : List RtpPacket) → Ascending queue → Ascending (make_room v queue)
unfolding make_room
make_room-Ascending v [] s = tt
make_room-Ascending v (p ∷ rest) s = ground arith

length-make_room :
    (queue : List RtpPacket) → length queue ≤ 32 → length (make_room false queue) ≤ 31
unfolding make_room
length-make_room [] h = omega arith
length-make_room (p ∷ rest) h = ground arith

module _ {Double : Type 0} (ops : DoubleOps Double) where
  -- The queue of a source: sorted, and short while the source is not validated.
  pub record QueueOk (d : SourceData Double) : Type 0 where
    pub sorted : Ascending d.packetlist
    pub short : d.validated ≡ false → length d.packetlist ≤ 32

  enqueue-QueueOk :
      (d : SourceData Double) (pack : RtpPacket) (handled : Bool)
      → QueueOk d
      → QueueOk (enqueue ops d pack handled).source
  unfolding enqueue
  enqueue-QueueOk d pack true q = record { sorted = q.sorted; short = q.short }
  enqueue-QueueOk d pack false q =
      let room = make_room-Ascending d.validated d.packetlist q.sorted in
      record {
        sorted = (insert_packet-Ascending (make_room d.validated d.packetlist) pack room).0;
        short = λ v. ground (
          arith,
          length-inserted (make_room d.validated d.packetlist) pack room,
          length-make_room d.packetlist,
        );
      }

  enqueue_if-QueueOk :
      (d : SourceData Double) (r : Processed Double) (through handled : Bool)
      → QueueOk d
      → QueueOk
          (if through
            then enqueue ops
                (record d { stats = r.stats; validated = r.accept || d.validated })
                r.packet
                handled
            else record { source = record d { stats = r.stats }; stored = false }).source
  enqueue_if-QueueOk d r true handled q =
      enqueue-QueueOk _ r.packet handled
        (record { sorted = q.sorted; short = λ v. q.short (ground arith) })
  enqueue_if-QueueOk d r false handled q = record { sorted = q.sorted; short = q.short }

  -- ProcessRTPPacket keeps the queue of a source sorted by extended sequence number without
  -- duplicates, and of at most 32 packets while the source is not validated, whatever packet comes
  -- and whatever the callback and the probation type do.
  pub process_rtp_packet-QueueOk :
      (d : SourceData Double) (pack : RtpPacket) (receivetime estimate : Double) (handled : Bool)
      → QueueOk d
      → QueueOk (process_rtp_packet ops d pack receivetime estimate handled).source
  unfolding process_rtp_packet
  process_rtp_packet-QueueOk d pack receivetime estimate handled q =
      let tsunit = if ops.lt d.timestampunit (ops.of_uint32 0) then estimate else d.timestampunit in
      let applyprobation = not d.validated && uses_probation d.probationtype in
      let r = process_packet ops d.stats pack receivetime tsunit d.ownssrc applyprobation in
      enqueue_if-QueueOk d r (goes_on d.probationtype r.accept r.onprobation) handled q
