-- ===== src/Tests/Scheduler.antt =====
-- RTCPScheduler: a run with a BYE, and a timer that has expired. Times are whole seconds.
use jrtplib.Prelude.{
  ℕ, ◌*◌, ◌/◌, ◌^◌, ◌≡◌, refl, true, false, not, ◌&&◌, if◌then◌else◌, List, [], ◌∷◌, some, leb, ok,
}
use jrtplib.Source.Data.{no_probation}
use jrtplib.Sources.{SourceTable, new_table}
use jrtplib.Sources.Runs.{run_on_table, create_own_call}
use jrtplib.Scheduler.{TimerOps, Scheduler, new_scheduler, reconsidered_interval, is_time}
use jrtplib.Scheduler.Ready.{Ready}
use jrtplib.Scheduler.Runs.{
  SchedulerCall, is_time_call, set_header_overhead_call, active_member_decrease_call,
  schedule_bye_packet_call, run_calls, decreases_started, run_calls-Ready,
}
use jrtplib.Scheduler.Due.{is_due, is_time_due}
use jrtplib.Tests.Sources.{ops}

abbrev timer : TimerOps ℕ
timer = record {
  of_size = λ n. n;
  to_size = λ n. n;
  mul = λ m n. m * n;
  leq = leb;
  of_decimal = λ n k. n / 10 ^ k;
}

abbrev own_table : SourceTable ℕ
own_table = run_on_table ops (new_table ops no_probation) (create_own_call true 7 ∷ [])

-- The timer is started, a member leaves and a BYE is scheduled and sent.
abbrev timer_calls : List (SchedulerCall ℕ)
timer_calls =
    set_header_overhead_call 28
    ∷ is_time_call own_table 3 3 1 1
    ∷ active_member_decrease_call (new_table ops no_probation) 4
    ∷ schedule_bye_packet_call own_table 100 5 1
    ∷ is_time_call own_table 20 20 1 1
    ∷ []

timer_calls_started : decreases_started ops timer false timer_calls ≡ true
unfolding decreases_started
timer_calls_started = refl

run_calls-Ready_example :
    (s : Scheduler ℕ) × (run_calls ops timer (new_scheduler ops timer) timer_calls ≡ ok s)
    × Ready ops timer s
run_calls-Ready_example = run_calls-Ready ops timer timer_calls timer_calls_started

-- The last RTCP time was 3, the next one is 8.
abbrev waiting : Scheduler ℕ
waiting = record (new_scheduler ops timer) {
  firstcall = false;
  pmembers = some 1;
  prevrtcptime = 3;
  nextrtcptime = 8;
}

waiting-Ready : Ready ops timer waiting
waiting-Ready = record {
  members_set = λ e. (1, refl);
  bye_started = λ e. refl;
  bye_size_set = λ e. cc;
  bye_members_set = λ e. cc;
}

is_time_due_example :
    (interval : ℕ) × (s' : Scheduler ℕ) × (reconsidered_interval ops timer waiting own_table 1
      ≡ ok interval)
    × (is_time ops timer waiting own_table 9 9 1 1 ≡ ok (s', is_due ops timer waiting 9 interval))
    × (s'.prevrtcptime ≡ (if is_due ops timer waiting 9 interval then 9 else 3))
    × (s'.byescheduled ≡ (not (is_due ops timer waiting 9 interval) && false))
is_time_due_example = is_time_due ops timer waiting own_table 9 9 1 1 waiting-Ready refl
