-- ===== src/Scheduler/Runs.antt =====
-- Runs of calls of RTCPScheduler: which members are set when they are read.
use jrtplib.Prelude.{
  ℕ, ◌≡◌, refl, Bool, true, false, ◌&&◌, List, [], ◌∷◌, Bool-cases, inl, inr, Outcome, ok, ◌>>=◌,
  ap, ◌∙◌, sym,
}
use jrtplib.Source.Doubles.{DoubleOps}
use jrtplib.Sources.{SourceTable}
use jrtplib.Rtcp.Compound.{CompoundPacket}
use jrtplib.Scheduler.{
  TimerOps, SchedulerParams, Scheduler, new_scheduler, reset, analyse_incoming, analyse_outgoing,
  get_transmission_delay, is_time, active_member_decrease, schedule_bye_packet,
}
use jrtplib.Scheduler.Ready.{
  Ready, GivesReady, new_scheduler-Ready, reset-Ready, analyse_incoming-Ready,
  analyse_outgoing-Ready, get_transmission_delay-Ready, is_time-Ready, decrease-Ready,
  schedule_bye-Ready,
}

pub data SchedulerCall (Double : Type 0) : Type 0 where
  reset_call : SchedulerCall Double
  set_parameters_call : SchedulerParams Double → SchedulerCall Double
  set_header_overhead_call : ℕ → SchedulerCall Double
  analyse_incoming_call analyse_outgoing_call : CompoundPacket → SchedulerCall Double
  get_transmission_delay_call :
      SourceTable Double → (now later draw curtime : Double) → SchedulerCall Double
  is_time_call : SourceTable Double → (now later draw redraw : Double) → SchedulerCall Double
  active_member_decrease_call : SourceTable Double → (tc : Double) → SchedulerCall Double
  schedule_bye_packet_call : SourceTable Double → ℕ → (now draw : Double) → SchedulerCall Double

module _ {Double : Type 0} (ops : DoubleOps Double) (timer : TimerOps Double) where
  unfoldable pub perform_call : Scheduler Double → SchedulerCall Double → Outcome (Scheduler Double)
  unfolding get_transmission_delay
  perform_call s reset_call = ok (reset ops timer s)
  perform_call s (set_parameters_call p) = ok (record s { schedparams = p })
  perform_call s (set_header_overhead_call n) = ok (record s { headeroverhead = n })
  perform_call s (analyse_incoming_call c) = analyse_incoming ops timer s c
  perform_call s (analyse_outgoing_call c) = ok (analyse_outgoing ops timer s c)
  perform_call s (get_transmission_delay_call t now later draw curtime) =
      ok (get_transmission_delay ops timer s t now later draw curtime).0
  perform_call s (is_time_call t now later draw redraw) = do
    result ← is_time ops timer s t now later draw redraw
    ok result.0
  perform_call s (active_member_decrease_call t tc) = active_member_decrease ops timer s t tc
  perform_call s (schedule_bye_packet_call t n now draw) =
      schedule_bye_packet ops timer s t n now draw

  unfoldable pub run_calls :
      Scheduler Double → List (SchedulerCall Double) → Outcome (Scheduler Double)
  unfolding perform_call
  run_calls s [] = ok s
  run_calls s (c ∷ cs) = do s' ← perform_call s c; run_calls s' cs

  -- Whether every decrease of the members comes behind a call that starts the timer, with no reset
  -- between them. `started` is whether it is started already.
  unfoldable pub decreases_started : (started : Bool) → List (SchedulerCall Double) → Bool
  decreases_started started [] = true
  decreases_started started (reset_call ∷ cs) = decreases_started false cs
  decreases_started started (set_parameters_call p ∷ cs) = decreases_started started cs
  decreases_started started (set_header_overhead_call n ∷ cs) = decreases_started started cs
  decreases_started started (analyse_incoming_call c ∷ cs) = decreases_started started cs
  decreases_started started (analyse_outgoing_call c ∷ cs) = decreases_started started cs
  decreases_started started (get_transmission_delay_call t now later draw curtime ∷ cs) =
      decreases_started true cs
  decreases_started started (is_time_call t now later draw redraw ∷ cs) = decreases_started true cs
  decreases_started started (active_member_decrease_call t tc ∷ cs) =
      started && decreases_started started cs
  decreases_started started (schedule_bye_packet_call t n now draw ∷ cs) = decreases_started true cs

  perform_call-Ready :
      (s : Scheduler Double) (c : SchedulerCall Double) (cs : List (SchedulerCall Double))
      (b : Bool)
      → Ready ops timer s
      → (b ≡ true → s.firstcall ≡ false)
      → decreases_started b (c ∷ cs) ≡ true
      → (b' : Bool) × GivesReady ops timer b' (perform_call s c) × (decreases_started b' cs ≡ true)
  unfolding perform_call decreases_started analyse_outgoing
  perform_call-Ready s reset_call cs b r f h =
      (false, (_, refl, reset-Ready ops timer s, λ e. cc), h)
  perform_call-Ready s (set_parameters_call p) cs b r f h = (
    b,
    (
      _,
      refl,
      record {
        members_set = r.members_set;
        bye_started = r.bye_started;
        bye_size_set = r.bye_size_set;
        bye_members_set = r.bye_members_set;
      },
      f,
    ),
    h,
  )
  perform_call-Ready s (set_header_overhead_call n) cs b r f h = (
    b,
    (
      _,
      refl,
      record {
        members_set = r.members_set;
        bye_started = r.bye_started;
        bye_size_set = r.bye_size_set;
        bye_members_set = r.bye_members_set;
      },
      f,
    ),
    h,
  )
  perform_call-Ready s (analyse_incoming_call c) cs b r f h =
      (b, analyse_incoming-Ready ops timer s c b r f, h)
  perform_call-Ready s (analyse_outgoing_call c) cs b r f h =
      (b, analyse_outgoing-Ready ops timer s c b r f, h)
  perform_call-Ready s (get_transmission_delay_call t now later draw curtime) cs b r f h =
      (true, get_transmission_delay-Ready ops timer s t now later draw curtime r, h)
  perform_call-Ready s (is_time_call t now later draw redraw) cs b r f h =
      let (s', fired, e, r', f') = is_time-Ready ops timer s t now later draw redraw r in
      (true, (s', ap (λ o. o >>= (λ result. ok result.0)) e, r', λ _. f'), h)
  perform_call-Ready s (active_member_decrease_call t tc) cs b r f h = elim (Bool-cases b) [
    | inl e ↦ (
      true,
      decrease-Ready ops timer s t tc r (f e),
      ap (λ x. x && decreases_started x cs) (sym e) ∙ h,
    )
    | inr e ↦ cc
  ]
  perform_call-Ready s (schedule_bye_packet_call t n now draw) cs b r f h =
      (true, schedule_bye-Ready ops timer s t n now draw r, h)

  run_from-Ready :
      (cs : List (SchedulerCall Double)) (s : Scheduler Double) (b : Bool)
      → Ready ops timer s
      → (b ≡ true → s.firstcall ≡ false)
      → decreases_started b cs ≡ true
      → (s' : Scheduler Double) × (run_calls s cs ≡ ok s') × Ready ops timer s'
  unfolding run_calls
  run_from-Ready [] s b r f h = (s, refl, r)
  run_from-Ready (c ∷ cs) s b r f h =
      let (b', (s1, e1, r1, f1), h1) = perform_call-Ready s c cs b r f h in
      let (s2, e2, r2) = run_from-Ready cs s1 b' r1 f1 h1 in
      (s2, ap (λ o. o >>= (λ s'. run_calls s' cs)) e1 ∙ e2, r2)

  -- A run of calls on a new scheduler reads no member that is not set yet, so it returns, and leaves
  -- a scheduler whose members are set as its timer and its scheduled BYE need them; provided that
  -- ActiveMemberDecrease is only called behind a call of GetTransmissionDelay, IsTime or
  -- ScheduleBYEPacket with no Reset since.
  pub run_calls-Ready :
      (calls : List (SchedulerCall Double))
      → decreases_started false calls ≡ true
      → (s : Scheduler Double) × (run_calls (new_scheduler ops timer) calls ≡ ok s)
        × Ready ops timer s
  run_calls-Ready calls h =
      run_from-Ready calls (new_scheduler ops timer) false (new_scheduler-Ready ops timer) (λ e. cc)
        h
