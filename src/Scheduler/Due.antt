-- ===== src/Scheduler/Due.antt =====
-- When RTCPScheduler::IsTime returns true.
use jrtplib.Prelude.{
  ◌≡◌, refl, Bool, false, not, ◌&&◌, Bool-cases, inl, inr, if◌then◌else◌, ok, ap, ◌∙◌, sym,
}
use jrtplib.Source.Doubles.{DoubleOps}
use jrtplib.Sources.{SourceTable}
use jrtplib.Scheduler.{
  TimerOps, Scheduler, is_time, reconsider, reconsidered_interval, calculate_next_rtcp_time,
}
use jrtplib.Scheduler.Ready.{Ready, interval_drawn, is_time_early, is_time_late}

module _ {Double : Type 0} (ops : DoubleOps Double) (timer : TimerOps Double) where
  -- The timer has expired, and the check time is reached.
  abbrev pub is_due : Scheduler Double → (now interval : Double) → Bool
  is_due s now interval =
      not (ops.lt now s.nextrtcptime) && timer.leq (ops.add interval s.prevrtcptime) now

  reconsider_fires :
      (s : Scheduler Double) (t : SourceTable Double) (now later redraw checktime : Double)
      → (reconsider ops timer s t now later redraw checktime).1 ≡ timer.leq checktime now
  unfolding calculate_next_rtcp_time
  reconsider_fires s t now later redraw checktime = elim (Bool-cases (timer.leq checktime now)) [
    | inl l ↦ rw l refl
    | inr l ↦ rw l refl
  ]

  reconsider_prev :
      (s : Scheduler Double) (t : SourceTable Double) (now later redraw checktime : Double)
      → (reconsider ops timer s t now later redraw checktime).0.prevrtcptime
        ≡ (if timer.leq checktime now then now else s.prevrtcptime)
  unfolding calculate_next_rtcp_time
  reconsider_prev s t now later redraw checktime = elim (Bool-cases (timer.leq checktime now)) [
    | inl l ↦ rw l refl
    | inr l ↦ rw l refl
  ]

  reconsider_bye :
      (s : Scheduler Double) (t : SourceTable Double) (now later redraw checktime : Double)
      → (reconsider ops timer s t now later redraw checktime).0.byescheduled
        ≡ (not (timer.leq checktime now) && s.byescheduled)
  unfolding calculate_next_rtcp_time
  reconsider_bye s t now later redraw checktime = elim (Bool-cases (timer.leq checktime now)) [
    | inl l ↦ rw l refl
    | inr l ↦ rw l refl
  ]

  -- Behind the first call, IsTime returns, and it returns true exactly if the clock is not before
  -- the next RTCP time and the interval that it draws anew has passed since the previous RTCP time.
  -- Then the present becomes the previous RTCP time and no BYE is scheduled any more; else both stay
  -- as they are. The members that it needs are set.
  pub is_time_due :
      (s : Scheduler Double) (t : SourceTable Double) (now later draw redraw : Double)
      → Ready ops timer s
      → s.firstcall ≡ false
      → (interval : Double) × (s' : Scheduler Double) × (reconsidered_interval ops timer s t draw
          ≡ ok interval)
        × (is_time ops timer s t now later draw redraw ≡ ok (s', is_due s now interval))
        × (s'.prevrtcptime ≡ (if is_due s now interval then now else s.prevrtcptime))
        × (s'.byescheduled ≡ (not (is_due s now interval) && s.byescheduled))
  is_time_due s t now later draw redraw r f =
      let (d, ed) = interval_drawn ops timer s t draw r in
      let checktime = ops.add d s.prevrtcptime in
      elim (Bool-cases (ops.lt now s.nextrtcptime)) [
        | inl w ↦ (
          d,
          s,
          ed,
          rw w (is_time_early ops timer s t now later draw redraw f w),
          rw w refl,
          rw w refl,
        )
        | inr w ↦ (
          d,
          (reconsider ops timer s t now later redraw checktime).0,
          ed,
          is_time_late ops timer s t now later draw redraw d f w ed
              ∙ ap (λ b. ok ((reconsider ops timer s t now later redraw checktime).0, b))
                  (reconsider_fires s t now later redraw checktime
                    ∙ ap (λ b. not b && timer.leq checktime now) (sym w)),
          reconsider_prev s t now later redraw checktime
              ∙ ap (λ b. if not b && timer.leq checktime now then now else s.prevrtcptime) (sym w),
          reconsider_bye s t now later redraw checktime
              ∙ ap (λ b. not (not b && timer.leq checktime now) && s.byescheduled) (sym w),
        )
      ]
