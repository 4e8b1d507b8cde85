-- ===== src/Scheduler/Ready.antt =====
-- Which members of an RTCPScheduler are set, and that each of its calls keeps them so.
use jrtplib.Prelude.{
  ℕ, ◌≡◌, refl, Bool, true, false, not, some, Bool-cases, inl, inr, ltb, if◌then◌else◌, Outcome, ok,
  ◌>>=◌, ap, ◌∙◌,
}
use jrtplib.Source.Doubles.{DoubleOps}
use jrtplib.Sources.{SourceTable}
use jrtplib.Rtcp.Compound.{CompoundPacket, goto_first_packet}
use jrtplib.Scheduler.{
  TimerOps, Scheduler, has_bye, read_member, new_scheduler, reset, analyse_incoming, count_bye,
  analyse_outgoing, first_call, calculate_next_rtcp_time, get_transmission_delay, is_time,
  reconsider, reconsidered_interval, calculate_bye_transmission_interval,
  perform_reverse_reconsideration, active_member_decrease, schedule_bye_packet, bye_begun, reversed,
  calculate_transmission_interval, are_sender,
}

module _ {Double : Type 0} (ops : DoubleOps Double) (timer : TimerOps Double) where
  -- The members that a started timer and a scheduled BYE need are set, and a BYE is only scheduled
  -- with the timer started.
  pub record Ready (s : Scheduler Double) : Type 0 where
    pub members_set : s.firstcall ≡ false → (n : ℕ) × (s.pmembers ≡ some n)
    pub bye_started : s.byescheduled ≡ true → s.firstcall ≡ false
    pub bye_size_set : s.byescheduled ≡ true → (n : ℕ) × (s.avgbyepacketsize ≡ some n)
    pub bye_members_set : s.byescheduled ≡ true → (n : ℕ) × (s.byemembers ≡ some n)

  -- The call gives a ready scheduler, and one that is started if `started`.
  abbrev pub GivesReady : (started : Bool) → Outcome (Scheduler Double) → Type 0
  GivesReady started r =
      (s' : Scheduler Double) × (r ≡ ok s') × Ready s' × (started ≡ true → s'.firstcall ≡ false)

  pub new_scheduler-Ready : Ready (new_scheduler ops timer)
  new_scheduler-Ready = record {
    members_set = λ e. cc;
    bye_started = λ e. cc;
    bye_size_set = λ e. cc;
    bye_members_set = λ e. cc;
  }

  pub reset-Ready : (s : Scheduler Double) → Ready (reset ops timer s)
  reset-Ready s = record {
    members_set = λ e. cc;
    bye_started = λ e. cc;
    bye_size_set = λ e. cc;
    bye_members_set = λ e. cc;
  }

  pub analyse_incoming-Ready :
      (s : Scheduler Double) (c : CompoundPacket) (b : Bool)
      → Ready s
      → (b ≡ true → s.firstcall ≡ false)
      → GivesReady b (analyse_incoming ops timer s c)
  unfolding analyse_incoming count_bye read_member
  analyse_incoming-Ready s c b r f = elim (Bool-cases (has_bye (goto_first_packet c).rtcppackit)) [
    | inr e ↦ rw e (
      _,
      refl,
      record {
        members_set = r.members_set;
        bye_started = r.bye_started;
        bye_size_set = r.bye_size_set;
        bye_members_set = r.bye_members_set;
      },
      f,
    )
    | inl e ↦ elim (Bool-cases s.byescheduled) [
      | inr o ↦ (s, rw (e, o) refl, r, f)
      | inl o ↦
          let (n, en) = r.bye_size_set o in
          let (k, ek) = r.bye_members_set o in
          rw (e, o, en, ek)
            (
              _,
              refl,
              record {
                members_set = r.members_set;
                bye_started = λ _. r.bye_started o;
                bye_size_set = λ _. (_, refl);
                bye_members_set = λ _. (_, refl);
              },
              f,
            )
    ]
  ]

  pub analyse_outgoing-Ready :
      (s : Scheduler Double) (c : CompoundPacket) (b : Bool)
      → Ready s
      → (b ≡ true → s.firstcall ≡ false)
      → GivesReady b (ok (analyse_outgoing ops timer s c))
  unfolding analyse_outgoing
  analyse_outgoing-Ready s c b r f = elim (Bool-cases (has_bye (goto_first_packet c).rtcppackit)) [
    | inr e ↦ rw e (
      _,
      refl,
      record {
        members_set = r.members_set;
        bye_started = r.bye_started;
        bye_size_set = r.bye_size_set;
        bye_members_set = r.bye_members_set;
      },
      f,
    )
    | inl e ↦ rw e (
      _,
      refl,
      record {
        members_set = r.members_set;
        bye_started = r.bye_started;
        bye_size_set = r.bye_size_set;
        bye_members_set = r.bye_members_set;
      },
      f,
    )
  ]

  first_call-Ready :
      (s : Scheduler Double) (t : SourceTable Double) (now later draw : Double)
      → Ready s
      → Ready (first_call ops timer s t now later draw)
  unfolding calculate_next_rtcp_time
  first_call-Ready s t now later draw r = record {
    members_set = λ _. (_, refl);
    bye_started = λ _. refl;
    bye_size_set = r.bye_size_set;
    bye_members_set = r.bye_members_set;
  }

  first_call_starts :
      (s : Scheduler Double) (t : SourceTable Double) (now later draw : Double)
      → (first_call ops timer s t now later draw).firstcall ≡ false
  unfolding calculate_next_rtcp_time
  first_call_starts s t now later draw = refl

  pub get_transmission_delay-Ready :
      (s : Scheduler Double) (t : SourceTable Double) (now later draw curtime : Double)
      → Ready s
      → GivesReady true (ok (get_transmission_delay ops timer s t now later draw curtime).0)
  unfolding get_transmission_delay
  get_transmission_delay-Ready s t now later draw curtime r = elim (Bool-cases s.firstcall) [
    | inl e ↦ (
      first_call ops timer s t now later draw,
      ap (λ b. ok (if b then first_call ops timer s t now later draw else s)) e,
      first_call-Ready s t now later draw r,
      λ _. first_call_starts s t now later draw,
    )
    | inr e ↦
        (s, ap (λ b. ok (if b then first_call ops timer s t now later draw else s)) e, r, λ _. e)
  ]

  bye_interval :
      (s : Scheduler Double) (draw : Double)
      → (s.byescheduled ≡ true → (n : ℕ) × (s.avgbyepacketsize ≡ some n))
      → (s.byescheduled ≡ true → (n : ℕ) × (s.byemembers ≡ some n))
      → (d : Double) × (calculate_bye_transmission_interval ops timer s draw ≡ ok d)
  unfolding calculate_bye_transmission_interval read_member
  bye_interval s draw size members = elim (Bool-cases s.byescheduled) [
    | inr e ↦ rw e (_, refl)
    | inl e ↦ elim (Bool-cases s.sendbyenow) [
      | inl o ↦ rw (e, o) (_, refl)
      | inr o ↦ let (n, en) = size e in let (k, ek) = members e in rw (e, o, en, ek) (_, refl)
    ]
  ]

  -- A ready scheduler draws an interval.
  pub interval_drawn :
      (s : Scheduler Double) (t : SourceTable Double) (draw : Double)
      → Ready s
      → (d : Double) × (reconsidered_interval ops timer s t draw ≡ ok d)
  unfolding reconsidered_interval
  interval_drawn s t draw r =
      let regular : Outcome Double =
        ok (calculate_transmission_interval ops timer s t (are_sender ops timer t) draw) in
      let leaving = calculate_bye_transmission_interval ops timer s draw in
      elim (Bool-cases s.byescheduled) [
        | inr e ↦ (_, ap (λ b. if not b then regular else leaving) e)
        | inl e ↦
            let (d, ed) = bye_interval s draw r.bye_size_set r.bye_members_set in
            (d, ap (λ b. if not b then regular else leaving) e ∙ ed)
      ]

  reconsider-Ready :
      (s : Scheduler Double) (t : SourceTable Double) (now later redraw checktime : Double)
      → Ready s
      → Ready (reconsider ops timer s t now later redraw checktime).0
  unfolding calculate_next_rtcp_time
  reconsider-Ready s t now later redraw checktime r = elim (Bool-cases (timer.leq checktime now)) [
    | inl e ↦ rw e (record {
      members_set = λ _. (_, refl);
      bye_started = λ b. cc;
      bye_size_set = λ b. cc;
      bye_members_set = λ b. cc;
    })
    | inr e ↦ rw e (record {
      members_set = λ _. (_, refl);
      bye_started = r.bye_started;
      bye_size_set = r.bye_size_set;
      bye_members_set = r.bye_members_set;
    })
  ]

  reconsider_started :
      (s : Scheduler Double) (t : SourceTable Double) (now later redraw checktime : Double)
      → (reconsider ops timer s t now later redraw checktime).0.firstcall ≡ s.firstcall
  unfolding calculate_next_rtcp_time
  reconsider_started s t now later redraw checktime = elim (Bool-cases (timer.leq checktime now)) [
    | inl e ↦ rw e refl
    | inr e ↦ rw e refl
  ]

  -- IsTime behind the first call, in the form of its definition.
  abbrev late :
      Scheduler Double
      → SourceTable Double
      → (now later draw redraw : Double) → Outcome (Scheduler Double × Bool)
  late s t now later draw redraw =
      if ops.lt now s.nextrtcptime
      then ok (s, false)
      else reconsidered_interval ops timer s t draw >>= (λ interval.
        ok (reconsider ops timer s t now later redraw (ops.add interval s.prevrtcptime)))

  pub is_time_first :
      (s : Scheduler Double) (t : SourceTable Double) (now later draw redraw : Double)
      → s.firstcall ≡ true
      → is_time ops timer s t now later draw redraw
        ≡ ok (first_call ops timer s t now later draw, false)
  unfolding is_time
  is_time_first s t now later draw redraw e =
      ap
        (λ b.
          if b
          then ok (first_call ops timer s t now later draw, false)
          else late s t now later draw redraw)
        e

  pub is_time_early :
      (s : Scheduler Double) (t : SourceTable Double) (now later draw redraw : Double)
      → s.firstcall ≡ false
      → ops.lt now s.nextrtcptime ≡ true
      → is_time ops timer s t now later draw redraw ≡ ok (s, false)
  unfolding is_time
  is_time_early s t now later draw redraw e w =
      ap
        (λ b.
          if b
          then ok (first_call ops timer s t now later draw, false)
          else late s t now later draw redraw)
        e
      ∙ ap
          (λ b.
            if b
            then ok (s, false)
            else reconsidered_interval ops timer s t draw >>= (λ interval.
              ok (reconsider ops timer s t now later redraw (ops.add interval s.prevrtcptime))))
          w

  pub is_time_late :
      (s : Scheduler Double) (t : SourceTable Double) (now later draw redraw d : Double)
      → s.firstcall ≡ false
      → ops.lt now s.nextrtcptime ≡ false
      → reconsidered_interval ops timer s t draw ≡ ok d
      → is_time ops timer s t now later draw redraw
        ≡ ok (reconsider ops timer s t now later redraw (ops.add d s.prevrtcptime))
  unfolding is_time
  is_time_late s t now later draw redraw d e w i =
      let rest = λ (o : Outcome Double). o >>= (λ interval.
        ok (reconsider ops timer s t now later redraw (ops.add interval s.prevrtcptime))) in
      ap
        (λ b.
          if b
          then ok (first_call ops timer s t now later draw, false)
          else late s t now later draw redraw)
        e
      ∙ ap (λ b. if b then ok (s, false) else rest (reconsidered_interval ops timer s t draw)) w
      ∙ ap rest i

  pub is_time-Ready :
      (s : Scheduler Double) (t : SourceTable Double) (now later draw redraw : Double)
      → Ready s
      → (s' : Scheduler Double) × (fired : Bool) × (is_time ops timer s t now later draw redraw
          ≡ ok (s', fired))
        × Ready s'
        × (s'.firstcall ≡ false)
  unfolding is_time
  is_time-Ready s t now later draw redraw r =
      let (d, ed) = interval_drawn s t draw r in
      let checktime = ops.add d s.prevrtcptime in
      elim (Bool-cases s.firstcall) [
        | inl e ↦ (
          _,
          _,
          is_time_first s t now later draw redraw e,
          first_call-Ready s t now later draw r,
          first_call_starts s t now later draw,
        )
        | inr e ↦ elim (Bool-cases (ops.lt now s.nextrtcptime)) [
          | inl w ↦ (s, false, is_time_early s t now later draw redraw e w, r, e)
          | inr w ↦ (
            (reconsider ops timer s t now later redraw checktime).0,
            (reconsider ops timer s t now later redraw checktime).1,
            is_time_late s t now later draw redraw d e w ed,
            reconsider-Ready s t now later redraw checktime r,
            reconsider_started s t now later redraw checktime ∙ e,
          )
        ]
      ]

  pub decrease-Ready :
      (s : Scheduler Double) (t : SourceTable Double) (tc : Double)
      → Ready s
      → s.firstcall ≡ false
      → GivesReady true (active_member_decrease ops timer s t tc)
  unfolding active_member_decrease perform_reverse_reconsideration read_member
  decrease-Ready s t tc r f =
      let (n, en) = r.members_set f in
      let e0 : active_member_decrease ops timer s t tc
          ≡ (if ltb t.activecount n then ok (reversed ops timer s t.activecount n tc) else ok s) =
        rw (en, f) refl in
      elim (Bool-cases (ltb t.activecount n)) [
        | inl l ↦ (
          _,
          e0 ∙ ap (λ b. if b then ok (reversed ops timer s t.activecount n tc) else ok s) l,
          record {
            members_set = λ _. (_, refl);
            bye_started = r.bye_started;
            bye_size_set = r.bye_size_set;
            bye_members_set = r.bye_members_set;
          },
          λ _. f,
        )
        | inr l ↦ (
          s,
          e0 ∙ ap (λ b. if b then ok (reversed ops timer s t.activecount n tc) else ok s) l,
          r,
          λ _. f,
        )
      ]

  bye_begun_members :
      (s : Scheduler Double) (t : SourceTable Double) (packetsize : ℕ)
      → Ready s
      → (n : ℕ) × ((bye_begun ops timer s t packetsize).pmembers ≡ some n)
  bye_begun_members s t packetsize r = elim (Bool-cases s.firstcall) [
    | inl e ↦ (t.activecount, ap (λ b. if b then some t.activecount else s.pmembers) e)
    | inr e ↦
        let (n, en) = r.members_set e in
        (n, ap (λ b. if b then some t.activecount else s.pmembers) e ∙ en)
  ]

  bye_scheduled :
      (s : Scheduler Double) (t : SourceTable Double) (packetsize : ℕ) (now draw d : Double)
      → s.byescheduled ≡ false
      → calculate_bye_transmission_interval ops timer (bye_begun ops timer s t packetsize) draw
        ≡ ok d
      → schedule_bye_packet ops timer s t packetsize now draw
        ≡ ok (record (bye_begun ops timer s t packetsize) {
          prevrtcptime = now;
          nextrtcptime = ops.add now d;
        })
  unfolding schedule_bye_packet
  bye_scheduled s t packetsize now draw d e i =
      let rest = λ (o : Outcome Double). o >>= (λ interval.
        ok (record (bye_begun ops timer s t packetsize) {
          prevrtcptime = now;
          nextrtcptime = ops.add now interval;
        })) in
      ap
        (λ b.
          if b
          then ok s
          else rest (
              calculate_bye_transmission_interval ops timer (bye_begun ops timer s t packetsize)
                draw))
        e
      ∙ ap rest i

  pub schedule_bye-Ready :
      (s : Scheduler Double) (t : SourceTable Double) (packetsize : ℕ) (now draw : Double)
      → Ready s
      → GivesReady true (schedule_bye_packet ops timer s t packetsize now draw)
  unfolding schedule_bye_packet
  schedule_bye-Ready s t packetsize now draw r =
      let (d, ed) =
        bye_interval (bye_begun ops timer s t packetsize) draw (λ _. (_, refl)) (λ _. (_, refl)) in
      elim (Bool-cases s.byescheduled) [
        | inl e ↦ (s, rw e refl, r, λ _. r.bye_started e)
        | inr e ↦ (
          record (bye_begun ops timer s t packetsize) {
            prevrtcptime = now;
            nextrtcptime = ops.add now d;
          },
          bye_scheduled s t packetsize now draw d e ed,
          record {
            members_set = λ _. bye_begun_members s t packetsize r;
            bye_started = λ _. refl;
            bye_size_set = λ _. (_, refl);
            bye_members_set = λ _. (_, refl);
          },
          λ _. refl,
        )
      ]
