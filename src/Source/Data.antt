-- ===== src/Source/Data.antt =====
-- RTPInternalSourceData (src/rtpinternalsourcedata.h, src/rtpinternalsourcedata.cpp) and the part of
-- RTPSourceData that it works on. Addresses and the records of sender and receiver reports are left
-- out. The estimate of the timestamp unit, what the callback OnValidatedRTPPacket reports, and
-- whether RTPNew finds memory are arguments.
use jrtplib.Prelude.{
  ℕ, Bool, true, false, not, ◌&&◌, ◌||◌, List, [], ◌∷◌, Option, none, some, length, ltb, ◌==◌,
  if◌then◌else◌, ok, err, out_of_mem, sdes_maxprivitems,
}
use jrtplib.Rtp.Packet.{RtpPacket}
use jrtplib.Sdes.{
  SdesInfo, Status, same_bytes, set_non_private_item, get_non_private_item, set_private_value,
}
use jrtplib.Source.Doubles.{DoubleOps}
use jrtplib.Source.Stats.{SourceStats, process_packet}

pub data ProbationType : Type 0 where
  no_probation probation_discard probation_store : ProbationType

pub record SourceData (Double : Type 0) : Type 0 where
  pub packetlist : List RtpPacket
  pub ssrc : ℕ
  pub ownssrc : Bool
  pub iscsrc : Bool
  pub timestampunit : Double
  pub receivedbye : Bool
  pub validated : Bool
  pub processedinrtcp : Bool
  pub issender : Bool
  pub stats : SourceStats Double
  pub sdesinf : SdesInfo
  pub byetime : Double
  pub byereason : Option (List ℕ)
  pub probationtype : ProbationType

-- How far the search for the packet's place got, from the back of the queue: the queue with the
-- packet put in, the same number met, or only larger numbers passed.
pub data Search : Type 0 where
  placed : List RtpPacket → Search
  equal : Search
  passed : Search

-- One step towards the front, to `p`, after what was found behind it.
unfoldable pub search_step : RtpPacket → List RtpPacket → RtpPacket → Search → Search
search_step p rest new (placed queue) = placed (p ∷ queue)
search_step p rest new equal = equal
search_step p rest new passed =
    if ltb new.extseqnr p.extseqnr
    then passed
    else if ltb p.extseqnr new.extseqnr
    then placed (p ∷ new ∷ rest)
    else equal

unfoldable pub search_back : List RtpPacket → RtpPacket → Search
unfolding search_step
search_back [] new = passed
search_back (p ∷ rest) new = search_step p rest new (search_back rest new)

-- The queue after the search, and `stored`.
unfoldable pub insert_packet : List RtpPacket → RtpPacket → List RtpPacket × Bool
insert_packet queue new = elim (search_back queue new) [
  | placed queue' ↦ (queue', true)
  | equal ↦ (queue, false)
  | passed ↦ (new ∷ queue, true)
]

-- At most 32 packets wait on probation: the one with the lowest number is dropped.
unfoldable pub make_room : Bool → List RtpPacket → List RtpPacket
make_room validated [] = []
make_room validated (p ∷ rest) = if not validated && length (p ∷ rest) == 32 then rest else p ∷ rest

-- Whether the packet goes on to the queue, and whether the source is validated now.
abbrev pub goes_on : ProbationType → (accept onprobation : Bool) → Bool
goes_on probation_store accept onprobation = onprobation || accept
goes_on probation_discard accept onprobation = accept
goes_on no_probation accept onprobation = accept

abbrev pub uses_probation : ProbationType → Bool
uses_probation no_probation = false
uses_probation probation_discard = true
uses_probation probation_store = true

module _ {Double : Type 0} (ops : DoubleOps Double) where
  open ops use {lt, of_uint32}

  pub record Handled : Type 0 where
    pub source : SourceData Double
    pub stored : Bool

  -- The rest of ProcessRTPPacket, once the packet is let through.
  unfoldable pub enqueue : SourceData Double → RtpPacket → (handled : Bool) → Handled
  enqueue d pack handled =
      let sender = record d { issender = (d.validated && not d.ownssrc) || d.issender } in
      if handled
      then record { source = sender; stored = true }
      else (let queue = insert_packet (make_room d.validated d.packetlist) pack in
          record { source = record sender { packetlist = queue.0 }; stored = queue.1 })

  unfoldable pub process_rtp_packet :
      SourceData Double → RtpPacket → (receivetime estimate : Double) → (handled : Bool) → Handled
  process_rtp_packet d pack receivetime estimate handled =
      let tsunit = if lt d.timestampunit (of_uint32 0) then estimate else d.timestampunit in
      let applyprobation = not d.validated && uses_probation d.probationtype in
      let r = process_packet ops d.stats pack receivetime tsunit d.ownssrc applyprobation in
      let seen = record d { stats = r.stats } in
      if goes_on d.probationtype r.accept r.onprobation
      then enqueue (record seen { validated = r.accept || d.validated }) r.packet handled
      else record { source = seen; stored = false }

  -- GetNextPacket.
  unfoldable pub get_next_packet : SourceData Double → Option RtpPacket × SourceData Double
  get_next_packet d = if not d.validated then (none, d) else elim d.packetlist [
    | [] ↦ (none, d)
    | p ∷ rest ↦ (some p, record d { packetlist = rest })
  ]

  set_last_message_time : SourceData Double → Double → SourceData Double
  set_last_message_time d t = record d { stats = record d.stats { lastmsgtime = t } }

  -- An item whose first value is kept.
  set_once : SourceData Double → ℕ → Bool → List ℕ → SourceData Double × Status
  set_once d itemno given bytes =
      let r = set_non_private_item d.sdesinf itemno given bytes in
      if length (get_non_private_item d.sdesinf itemno) == 0
      then (record d { sdesinf = r.0 }, r.1)
      else (d, ok tt)

  set_always : SourceData Double → ℕ → Bool → List ℕ → SourceData Double × Status
  set_always d itemno given bytes =
      let r = set_non_private_item d.sdesinf itemno given bytes in (record d { sdesinf = r.0 }, r.1)

  pub record SdesResult : Type 0 where
    pub source : SourceData Double
    pub status : Status
    pub cnamecollis : Bool

  process_cname : SourceData Double → Bool → List ℕ → SdesResult
  process_cname d given bytes =
      let old = get_non_private_item d.sdesinf 0 in
      if length old == 0
      then record {
        source = record d {
          sdesinf = (set_non_private_item d.sdesinf 0 given bytes).0;
          validated = true;
        };
        status = ok tt;
        cnamecollis = false;
      }
      else record {
        source = d;
        status = ok tt;
        cnamecollis = not (length old == length bytes && same_bytes bytes old);
      }

  no_collision : SourceData Double × Status → SdesResult
  no_collision r = record { source = r.0; status = r.1; cnamecollis = false }

  -- ProcessSDESItem, by the item's identifier.
  unfoldable pub process_sdes_item :
      SourceData Double → (sdesid : ℕ) → (given : Bool) → List ℕ → Double → SdesResult
  unfolding set_last_message_time set_once set_always process_cname no_collision
  process_sdes_item d sdesid given bytes receivetime =
      let d' = set_last_message_time d receivetime in
      let noted = record d' { stats = record d'.stats { lastnotetime = receivetime } } in
      if sdesid == 1
      then process_cname d' given bytes
      else if sdesid == 2
      then no_collision (set_once d' 1 given bytes)
      else if sdesid == 3
      then no_collision (set_once d' 2 given bytes)
      else if sdesid == 4
      then no_collision (set_always d' 3 given bytes)
      else if sdesid == 5
      then no_collision (set_always d' 4 given bytes)
      else if sdesid == 6
      then no_collision (set_once d' 5 given bytes)
      else if sdesid == 7
      then no_collision (set_always noted 6 given bytes)
      else no_collision (d', ok tt)

  ignore_full : Status → Status
  ignore_full (err sdes_maxprivitems) = ok tt
  ignore_full s = s

  unfoldable pub process_private_sdes_item :
      SourceData Double
      → (item prefix value : Bool) → List ℕ
      → List ℕ
      → Double
      → SourceData Double × Status
  unfolding set_last_message_time ignore_full
  process_private_sdes_item d item prefix value p v receivetime =
      let d' = set_last_message_time d receivetime in
      let r = set_private_value d'.sdesinf item prefix value p v in
      (record d' { sdesinf = r.0 }, ignore_full r.1)

  -- ProcessBYEPacket: an earlier reason is dropped before the new one is copied.
  unfoldable pub process_bye_packet :
      SourceData Double → (given : Bool) → List ℕ → Double → SourceData Double × Status
  unfolding set_last_message_time
  process_bye_packet d given reason receivetime =
      let left = record d { byereason = none; byetime = receivetime } in
      if not given then (left, err out_of_mem) else (
        set_last_message_time (record left { byereason = some reason; receivedbye = true })
            receivetime,
        ok tt,
      )

  unfoldable pub set_own_ssrc : SourceData Double → SourceData Double
  set_own_ssrc d = record d { ownssrc = true; validated = true }

  unfoldable pub set_csrc : SourceData Double → SourceData Double
  set_csrc d = record d { validated = true; iscsrc = true }

  unfoldable pub clear_sender_flag : SourceData Double → SourceData Double
  clear_sender_flag d = record d { issender = false }

  -- IsActive.
  unfoldable pub is_active : SourceData Double → Bool
  is_active d = d.validated && not d.receivedbye
