-- ===== src/Scheduler.antt =====
-- RTCPScheduler and RTCPSchedulerParams (src/rtcpscheduler.h, src/rtcpscheduler.cpp): when the next RTCP
-- packet is sent. Members that the constructor does not set are none until they are set, and reading
-- one then is a fault. The readings of the clock and the random numbers are arguments in the order in
-- which they are taken; the table of sources is the model's. The iterator of an analysed compound
-- packet is not kept.
pub mod Ready
pub mod Due
pub mod Runs
use jrtplib.Prelude.{
  ℕ, ◌+◌, ◌-◌, ◌%◌, ◌^◌, Bool, true, false, not, ◌&&◌, ◌||◌, List, [], ◌∷◌, Option, none, some,
  length, ltb, leb, ◌==◌, if◌then◌else◌, Outcome, ok, err, ◌>>=◌, schedparams_invalidbandwidth,
  schedparams_badfraction, schedparams_badminimuminterval,
}
use jrtplib.Source.Doubles.{DoubleOps}
use jrtplib.Source.Data.{SourceData}
use jrtplib.Sources.{SourceTable, find_source}
use jrtplib.Rtcp.Packet.{PacketType, sr, rr, sdes, bye, app, unknown, RtcpPacket}
use jrtplib.Rtcp.Compound.{CompoundPacket, goto_first_packet}

-- The arithmetic of double that only the scheduler uses: the conversions of size_t, the product, the
-- test <=, and `of_decimal n k`, the double nearest to n / 10 ^ k.
pub record TimerOps (Double : Type 0) : Type 0 where
  pub of_size : ℕ → Double
  pub to_size : Double → ℕ
  pub mul : Double → Double → Double
  pub leq : Double → Double → Bool
  pub of_decimal : ℕ → ℕ → Double

pub record SchedulerParams (Double : Type 0) : Type 0 where
  pub bandwidth : Double
  pub senderfraction : Double
  pub mininterval : Double
  pub usehalfatstartup : Bool
  pub immediatebye : Bool

pub record Scheduler (Double : Type 0) : Type 0 where
  pub schedparams : SchedulerParams Double
  pub headeroverhead : ℕ
  pub avgrtcppacksize : ℕ
  pub hassentrtcp : Bool
  pub firstcall : Bool
  pub nextrtcptime : Double
  pub prevrtcptime : Double
  pub pmembers : Option ℕ
  pub byescheduled : Bool
  pub byemembers : Option ℕ
  pub pbyemembers : Option ℕ
  pub avgbyepacketsize : Option ℕ
  pub sendbyenow : Bool

-- The value of a member.
unfoldable pub read_member : Option ℕ → Outcome ℕ
read_member none = Outcome.fault
read_member (some n) = ok n

-- The loop over the packets that looks for a BYE.
unfoldable pub has_bye : List RtcpPacket → Bool
has_bye [] = false
has_bye (p ∷ ps) = elim p.packettype [
  | sr ↦ has_bye ps
  | rr ↦ has_bye ps
  | sdes ↦ has_bye ps
  | bye ↦ true
  | app ↦ has_bye ps
  | unknown ↦ has_bye ps
]

module _ {Double : Type 0} (ops : DoubleOps Double) (timer : TimerOps Double) where
  open ops use {of_uint32, neg, add, sub, div, lt}
  open timer use {of_size, to_size, mul, leq, of_decimal}

  abbrev pub new_params : SchedulerParams Double
  new_params = record {
    bandwidth = of_uint32 1000;
    senderfraction = of_decimal 25 2;
    mininterval = of_decimal 5 0;
    usehalfatstartup = true;
    immediatebye = true;
  }

  unfoldable pub set_rtcp_bandwidth :
      SchedulerParams Double → Double → Outcome (SchedulerParams Double)
  set_rtcp_bandwidth p bw =
      if lt bw (of_uint32 0)
      then err schedparams_invalidbandwidth
      else ok (record p { bandwidth = bw })

  unfoldable pub set_sender_bandwidth_fraction :
      SchedulerParams Double → Double → Outcome (SchedulerParams Double)
  set_sender_bandwidth_fraction p fraction =
      if lt fraction (of_uint32 0) || lt (of_uint32 1) fraction
      then err schedparams_badfraction
      else ok (record p { senderfraction = fraction })

  unfoldable pub set_minimum_transmission_interval :
      SchedulerParams Double → Double → Outcome (SchedulerParams Double)
  set_minimum_transmission_interval p t =
      if lt t (of_uint32 1)
      then err schedparams_badminimuminterval
      else ok (record p { mininterval = t })

  abbrev pub reset : Scheduler Double → Scheduler Double
  reset s = record s {
    headeroverhead = 0;
    hassentrtcp = false;
    firstcall = true;
    avgrtcppacksize = 1000;
    byescheduled = false;
    sendbyenow = false;
  }

  abbrev pub new_scheduler : Scheduler Double
  new_scheduler = record {
    schedparams = new_params;
    headeroverhead = 0;
    avgrtcppacksize = 1000;
    hassentrtcp = false;
    firstcall = true;
    nextrtcptime = of_uint32 0;
    prevrtcptime = of_uint32 0;
    pmembers = none;
    byescheduled = false;
    byemembers = none;
    pbyemembers = none;
    avgbyepacketsize = none;
    sendbyenow = false;
  }

  -- The running average of the packet sizes, a sixteenth of it the new one.
  abbrev pub weighted : (packsize avg : ℕ) → ℕ
  weighted packsize avg = to_size (
      add (mul (div (of_uint32 1) (of_uint32 16)) (of_size packsize))
        (mul (div (of_uint32 15) (of_uint32 16)) (of_size avg)))

  abbrev pub packet_size : Scheduler Double → CompoundPacket → ℕ
  packet_size s c = (s.headeroverhead + length c.compoundpacket) % 2 ^ 64

  -- A BYE came in while the own one is scheduled.
  unfoldable pub count_bye : Scheduler Double → CompoundPacket → Outcome (Scheduler Double)
  unfolding read_member
  count_bye s c = do
    avg ← read_member s.avgbyepacketsize
    n ← read_member s.byemembers
    ok (record s {
      avgbyepacketsize = some (weighted (packet_size s c) avg);
      byemembers = some (n + 1);
    })

  unfoldable pub analyse_incoming : Scheduler Double → CompoundPacket → Outcome (Scheduler Double)
  unfolding count_bye has_bye goto_first_packet
  analyse_incoming s c =
      if not (has_bye (goto_first_packet c).rtcppackit)
      then ok (record s { avgrtcppacksize = weighted (packet_size s c) s.avgrtcppacksize })
      else if s.byescheduled
      then count_bye s c
      else ok s

  unfoldable pub analyse_outgoing : Scheduler Double → CompoundPacket → Scheduler Double
  unfolding has_bye goto_first_packet
  analyse_outgoing s c =
      if not (has_bye (goto_first_packet c).rtcppackit)
      then record s {
        avgrtcppacksize = weighted (packet_size s c) s.avgrtcppacksize;
        hassentrtcp = true;
      }
      else record s { hassentrtcp = true }

  -- Whether the own source is a sender.
  unfoldable pub are_sender : SourceTable Double → Bool
  unfolding find_source
  are_sender t = elim t.owndata [
    | none ↦ false
    | some ssrc ↦ elim (find_source ops t.sourcelist ssrc) [ none ↦ false | some d ↦ d.issender ]
  ]

  -- The larger one of the minimum and n * C.
  abbrev pub at_least : (tmin ntimesc : Double) → Double
  at_least tmin ntimesc = if lt ntimesc tmin then tmin else ntimesc

  -- (double)(m - n), where m - n can be negative.
  abbrev pub difference : ℕ → ℕ → Double
  difference m n = if leb n m then of_uint32 (m - n) else neg (of_uint32 (n - m))

  unfoldable pub calculate_deterministic_interval :
      Scheduler Double → SourceTable Double → Bool → Double
  calculate_deterministic_interval s t sender =
      let p = s.schedparams in
      let numtotal = if t.activecount == 0 then 1 else t.activecount in
      let size = of_size s.avgrtcppacksize in
      let tmin =
        if not s.hassentrtcp && p.usehalfatstartup
        then div p.mininterval (of_uint32 2)
        else p.mininterval in
      let ntimesc =
        if leq (div (of_uint32 t.sendercount) (of_uint32 numtotal)) p.senderfraction
        then (if sender
            then mul (of_uint32 t.sendercount) (div size (mul p.senderfraction p.bandwidth))
            else mul (difference numtotal t.sendercount)
                (div size (mul (sub (of_uint32 1) p.senderfraction) p.bandwidth)))
        else mul (of_uint32 numtotal) (div size p.bandwidth) in
      at_least tmin ntimesc

  -- An interval times a random number of 0.5 to 1.5, over 1.21828.
  abbrev pub randomized : (td draw : Double) → Double
  randomized td draw = div (mul td (add draw (of_decimal 5 1))) (of_decimal 121828 5)

  unfoldable pub calculate_transmission_interval :
      Scheduler Double → SourceTable Double → Bool → (draw : Double) → Double
  unfolding calculate_deterministic_interval
  calculate_transmission_interval s t sender draw =
      randomized (calculate_deterministic_interval s t sender) draw

  unfoldable pub calculate_bye_transmission_interval :
      Scheduler Double → (draw : Double) → Outcome Double
  unfolding read_member
  calculate_bye_transmission_interval s draw =
      let p = s.schedparams in
      let tmin = if p.usehalfatstartup then div p.mininterval (of_uint32 2) else p.mininterval in
      if not s.byescheduled || s.sendbyenow then ok (of_uint32 0) else (do
        avg ← read_member s.avgbyepacketsize
        n ← read_member s.byemembers
        ok (
            randomized
              (at_least tmin (
                mul (of_uint32 n)
                  (div (of_size avg) (mul (sub (of_uint32 1) p.senderfraction) p.bandwidth))))
              draw))

  unfoldable pub calculate_next_rtcp_time :
      Scheduler Double → SourceTable Double → (now draw : Double) → Scheduler Double
  unfolding calculate_transmission_interval are_sender
  calculate_next_rtcp_time s t now draw = record s {
    nextrtcptime = add now (calculate_transmission_interval s t (are_sender t) draw);
  }

  -- What the first call of GetTransmissionDelay or IsTime does.
  abbrev pub first_call :
      Scheduler Double → SourceTable Double → (now later draw : Double) → Scheduler Double
  first_call s t now later draw =
      calculate_next_rtcp_time
        (record s { firstcall = false; prevrtcptime = now; pmembers = some t.activecount }) t later
        draw

  unfoldable pub get_transmission_delay :
      Scheduler Double
      → SourceTable Double
      → (now later draw curtime : Double) → Scheduler Double × Double
  get_transmission_delay s t now later draw curtime =
      let s' = if s.firstcall then first_call s t now later draw else s in
      (s', (if lt s'.nextrtcptime curtime then of_uint32 0 else sub s'.nextrtcptime curtime))

  -- The interval that IsTime draws once the timer has expired.
  unfoldable pub reconsidered_interval :
      Scheduler Double → SourceTable Double → (draw : Double) → Outcome Double
  unfolding calculate_transmission_interval calculate_bye_transmission_interval are_sender
  reconsidered_interval s t draw =
      if not s.byescheduled
      then ok (calculate_transmission_interval s t (are_sender t) draw)
      else calculate_bye_transmission_interval s draw

  -- IsTime with the new check time.
  abbrev pub reconsider :
      Scheduler Double
      → SourceTable Double
      → (now later redraw checktime : Double) → Scheduler Double × Bool
  reconsider s t now later redraw checktime =
      if leq checktime now
      then (
        calculate_next_rtcp_time
            (record s { byescheduled = false; prevrtcptime = now; pmembers = some t.activecount }) t
            later redraw,
        true,
      )
      else (record s { nextrtcptime = checktime; pmembers = some t.activecount }, false)

  unfoldable pub is_time :
      Scheduler Double
      → SourceTable Double
      → (now later draw redraw : Double) → Outcome (Scheduler Double × Bool)
  unfolding reconsidered_interval
  is_time s t now later draw redraw =
      if s.firstcall
      then ok (first_call s t now later draw, false)
      else if lt now s.nextrtcptime
      then ok (s, false)
      else (do
        interval ← reconsidered_interval s t draw
        ok (reconsider s t now later redraw (add interval s.prevrtcptime)))

  -- The times of reverse reconsideration, for the members then and the members now.
  abbrev pub reversed : Scheduler Double → (members pmembers : ℕ) → (tc : Double) → Scheduler Double
  reversed s members pmembers tc =
      let zero_time = of_uint32 0 in
      let tn_min_tc = if lt tc s.nextrtcptime then sub s.nextrtcptime tc else zero_time in
      let tc_min_tp = if lt s.prevrtcptime tc then sub tc s.prevrtcptime else zero_time in
      let ratio = div (of_uint32 members) (of_uint32 (if pmembers == 0 then 1 else pmembers)) in
      record s {
        nextrtcptime = add tc (mul ratio tn_min_tc);
        prevrtcptime = sub tc (mul ratio tc_min_tp);
        pmembers = some members;
      }

  unfoldable pub perform_reverse_reconsideration :
      Scheduler Double → SourceTable Double → (tc : Double) → Outcome (Scheduler Double)
  unfolding read_member
  perform_reverse_reconsideration s t tc =
      if s.firstcall
      then ok s
      else (do pmembers ← read_member s.pmembers; ok (reversed s t.activecount pmembers tc))

  unfoldable pub active_member_decrease :
      Scheduler Double → SourceTable Double → (tc : Double) → Outcome (Scheduler Double)
  unfolding read_member perform_reverse_reconsideration
  active_member_decrease s t tc = do
    pmembers ← read_member s.pmembers
    (if ltb t.activecount pmembers then perform_reverse_reconsideration s t tc else ok s)

  -- ScheduleBYEPacket up to the times.
  abbrev pub bye_begun : Scheduler Double → SourceTable Double → (packetsize : ℕ) → Scheduler Double
  bye_begun s t packetsize = record s {
    pmembers = if s.firstcall then some t.activecount else s.pmembers;
    firstcall = false;
    byescheduled = true;
    avgbyepacketsize = some ((packetsize + s.headeroverhead) % 2 ^ 64);
    byemembers = some 1;
    pbyemembers = some 1;
    sendbyenow = s.schedparams.immediatebye && ltb t.activecount 50;
  }

  unfoldable pub schedule_bye_packet :
      Scheduler Double
      → SourceTable Double
      → (packetsize : ℕ) → (now draw : Double) → Outcome (Scheduler Double)
  unfolding calculate_bye_transmission_interval
  schedule_bye_packet s t packetsize now draw = if s.byescheduled then ok s else (do
    interval ← calculate_bye_transmission_interval (bye_begun s t packetsize) draw
    ok (record (bye_begun s t packetsize) { prevrtcptime = now; nextrtcptime = add now interval }))
