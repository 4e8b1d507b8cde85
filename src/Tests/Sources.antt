-- ===== src/Tests/Sources.antt =====
-- RTPSources: runs of calls on the table. Times are whole seconds.
use jrtplib.Prelude.{
  ℕ, ◌≢◌, ◌+◌, ◌-◌, ◌/◌, ◌≡◌, refl, true, false, not, ◌&&◌, List, [], ◌∷◌, some, length, bit, ltb,
  ok, ◌||◌, map, if◌then◌else◌,
}
use jrtplib.Source.Doubles.{DoubleOps}
use jrtplib.Source.Data.{no_probation}
use jrtplib.Sources.{
  SourceTable, new_table, new_source, find_source, obtain_source, got_entry, process_csrc,
  multiple_timeouts, sender_timeout, timeout, bye_timeout, note_timeout,
}
use jrtplib.Sources.Counted.{count_senders, count_active}
use jrtplib.Sources.Kept.{Counted}
use jrtplib.Sources.Runs.{
  TableCall, create_own_call, sent_call, obtain_call, multiple_timeouts_call, perform_on_table,
  run_on_table, run_on_table-Counted,
}
use jrtplib.Sources.Timeouts.{multiple_timeouts-sender_timeout}
use jrtplib.Sources.Leave.{those, recently, old_note, without_note, timeouts_leave}
use jrtplib.Sources.Csrcs.{process_csrc_active}

abbrev pub ops : DoubleOps ℕ
ops = record {
  of_uint32 = λ n. n;
  to_uint32 = λ n. n;
  neg = λ n. 0;
  add = λ m n. m + n;
  sub = λ m n. m - n;
  div = λ m n. m / n;
  lt = ltb;
}

-- The own source sends a packet at time 3, another source is known, and later all that is older
-- than 5 seconds times out.
abbrev table_calls : List (TableCall ℕ)
table_calls =
    create_own_call true 7
    ∷ sent_call 3
    ∷ obtain_call true 8
    ∷ multiple_timeouts_call 20 5 5 5 5
    ∷ []

run_on_table-Counted_example :
    Counted ops (run_on_table ops (new_table ops no_probation) table_calls)
run_on_table-Counted_example = run_on_table-Counted ops no_probation table_calls

-- A table with one source of which nothing is known.
abbrev one_source : SourceTable ℕ
one_source = run_on_table ops (new_table ops no_probation) (obtain_call true 8 ∷ [])

multiple_timeouts-sender_timeout_example :
    multiple_timeouts ops one_source 20 5 5 5 5
    ≡ sender_timeout ops
        (timeout ops (bye_timeout ops (note_timeout ops one_source 20 5) 20 5) 20 5)
        20
        5
multiple_timeouts-sender_timeout_example =
    multiple_timeouts-sender_timeout ops one_source 20 5 5 5 5

timeouts_leave_example :
    (timeout ops one_source 20 5).sourcelist
      ≡ those ops
          (λ d. recently ops one_source.owndata d.stats.lastmsgtime (20 - 5) d)
          one_source.sourcelist
    × (bye_timeout ops one_source 20 5).sourcelist
      ≡ those ops
          (λ d. not d.receivedbye || recently ops one_source.owndata d.byetime (20 - 5) d)
          one_source.sourcelist
    × (sender_timeout ops one_source 20 5).sourcelist
      ≡ map
          (λ d.
            if d.issender && ltb d.stats.lastrtptime (20 - 5)
            then record d { issender = false }
            else d)
          one_source.sourcelist
    × (note_timeout ops one_source 20 5).sourcelist
      ≡ map (λ d. if old_note ops (20 - 5) d then without_note ops d else d) one_source.sourcelist
timeouts_leave_example = timeouts_leave ops one_source 20 5

one_found : find_source ops one_source.sourcelist 8 ≡ some (new_source ops 8 no_probation)
unfolding run_on_table perform_on_table obtain_source got_entry find_source
one_found = refl

process_csrc_active_example :
    (t' : SourceTable ℕ) × (process_csrc ops one_source true false 8 ≡ ok t')
    × (find_source ops t'.sourcelist 8
        ≡ some (record (new_source ops 8 no_probation) { validated = true; iscsrc = true }))
    × ((k : ℕ) → k ≢ 8 → find_source ops t'.sourcelist k ≡ find_source ops one_source.sourcelist k)
    × (t'.activecount ≡ one_source.activecount)
    × (t'.totalcount ≡ length t'.sourcelist)
    × (t'.sendercount ≡ count_senders ops t'.sourcelist)
    × (t'.activecount
          + bit (
              not (new_source ops 8 no_probation).validated
              && not (new_source ops 8 no_probation).receivedbye)
        ≡ count_active ops t'.sourcelist)
process_csrc_active_example =
    process_csrc_active ops one_source true 8 (new_source ops 8 no_probation)
      (run_on_table-Counted ops no_probation (obtain_call true 8 ∷ [])) one_found
