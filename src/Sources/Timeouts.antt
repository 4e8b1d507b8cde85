-- ===== src/Sources/Timeouts.antt =====
-- MultipleTimeouts does what the four timeouts do one after the other.
use jrtplib.Prelude.{
  ℕ, ◌≡◌, refl, ap, ap₂, sym, ◌∙◌, Bool, true, false, not, ◌&&◌, List, [], ◌∷◌, ◌++◌, Option,
  Bool-cases, inl, inr,
}
use mathlib.Core.List.{append_assoc}
use jrtplib.Source.Doubles.{DoubleOps}
use jrtplib.Source.Data.{SourceData}
use jrtplib.Sources.{
  SourceTable, Verdict, is_own, CheckTimes, timeout_verdict, sender_verdict, bye_verdict,
  note_verdict, multiple_verdict, multiple_rest, note_timed_out, clear_note, timeout,
  sender_timeout, bye_timeout, note_timeout, multiple_timeouts,
}
use jrtplib.Sources.Counted.{recount, stays, kept_of, swept-recount}

module _ {Double : Type 0} (ops : DoubleOps Double) where
  kept_of-append :
      (v : SourceData Double → Verdict Double) (xs ys : List (SourceData Double))
      → kept_of ops v (xs ++ ys) ≡ kept_of ops v xs ++ kept_of ops v ys
  kept_of-append v [] ys = refl
  kept_of-append v (x ∷ xs) ys =
      ap (λ l. stays ops (v x) ++ l) (kept_of-append v xs ys)
      ∙ sym (append_assoc (stays ops (v x)) (kept_of ops v xs) (kept_of ops v ys))

  -- A loop does what another does with a function of lists behind it, if it does so on each source.
  kept_of-one :
      (v x : SourceData Double → Verdict Double)
      (g : List (SourceData Double) → List (SourceData Double))
      → (g [] ≡ [])
      → ((xs ys : List (SourceData Double)) → g (xs ++ ys) ≡ g xs ++ g ys)
      → ((d : SourceData Double) → stays ops (x d) ≡ g (stays ops (v d)))
      → (ds : List (SourceData Double)) → kept_of ops x ds ≡ g (kept_of ops v ds)
  kept_of-one v x g z a h [] = sym z
  kept_of-one v x g z a h (d ∷ ds) =
      ap₂ ◌++◌ (h d) (kept_of-one v x g z a h ds) ∙ sym (a (stays ops (v d)) (kept_of ops v ds))

  multiple_rest-stays :
      (own : Option ℕ) (c : CheckTimes ops) (d : SourceData Double) (noted : Bool)
      → stays ops (multiple_rest ops own c d noted)
        ≡ kept_of ops (sender_verdict ops c.senderchecktime) (
            kept_of ops
              (timeout_verdict ops own c.generalchecktime)
              (kept_of ops (bye_verdict ops own c.byechecktime) (d ∷ [])))
  unfolding sender_verdict timeout_verdict bye_verdict
  multiple_rest-stays own c d noted =
      elim (Bool-cases
        (d.receivedbye && (not (is_own ops own d) && ops.lt d.byetime c.byechecktime))) [
          | inl left ↦ rw left refl
          | inr here ↦
              elim (Bool-cases
                (not (is_own ops own d) && ops.lt d.stats.lastmsgtime c.generalchecktime)) [
                  | inl silent ↦ rw (here, silent) refl
                  | inr heard ↦
                      elim (Bool-cases
                        (d.issender && ops.lt d.stats.lastrtptime c.senderchecktime)) [
                          | inl old ↦ rw (here, heard, old) refl
                          | inr new ↦ rw (here, heard, new) refl
                        ]
                ]
        ]

  multiple-stays :
      (own : Option ℕ) (c : CheckTimes ops) (d : SourceData Double)
      → stays ops (multiple_verdict ops own c d)
        ≡ kept_of ops (sender_verdict ops c.senderchecktime) (
            kept_of ops (timeout_verdict ops own c.generalchecktime) (
              kept_of ops
                (bye_verdict ops own c.byechecktime)
                (stays ops (note_verdict ops c.notechecktime d))))
  unfolding multiple_verdict note_verdict
  multiple-stays own c d = elim (Bool-cases (note_timed_out ops c.notechecktime d)) [
    | inl old ↦ rw old (multiple_rest-stays own c (clear_note ops d) true)
    | inr new ↦ rw new (multiple_rest-stays own c d false)
  ]

  -- MultipleTimeouts leaves the table, with its counters, as NoteTimeout, BYETimeout, Timeout and
  -- SenderTimeout leave it that are called one after the other for the same time.
  pub multiple_timeouts-sender_timeout :
      (t : SourceTable Double)
      (curtime sendertimeout byetimeout generaltimeout notetimeout : Double)
      → multiple_timeouts ops t curtime sendertimeout byetimeout generaltimeout notetimeout
        ≡ sender_timeout ops
            (timeout ops
              (bye_timeout ops (note_timeout ops t curtime notetimeout) curtime byetimeout)
              curtime
              generaltimeout)
            curtime
            sendertimeout
  multiple_timeouts-sender_timeout t curtime s b g n =
      let own = t.owndata in
      let c : CheckTimes ops = record {
        senderchecktime = ops.sub curtime s;
        byechecktime = ops.sub curtime b;
        generalchecktime = ops.sub curtime g;
        notechecktime = ops.sub curtime n;
      } in
      let vn = note_verdict ops c.notechecktime in
      let vb = bye_verdict ops own c.byechecktime in
      let vg = timeout_verdict ops own c.generalchecktime in
      let vs = sender_verdict ops c.senderchecktime in
      let l1 = kept_of ops vn t.sourcelist in
      let l2 = kept_of ops vb l1 in
      let l3 = kept_of ops vg l2 in
      let after =
        λ (l : List (SourceData Double)). kept_of ops vs (kept_of ops vg (kept_of ops vb l)) in
      let append : (xs ys : List (SourceData Double)) → after (xs ++ ys) ≡ after xs ++ after ys =
        λ xs ys.
          ap (λ l. kept_of ops vs (kept_of ops vg l)) (kept_of-append vb xs ys)
          ∙ ap (kept_of ops vs) (kept_of-append vg (kept_of ops vb xs) (kept_of ops vb ys))
          ∙ kept_of-append vs (kept_of ops vg (kept_of ops vb xs))
              (kept_of ops vg (kept_of ops vb ys)) in
      let lists : kept_of ops (multiple_verdict ops own c) t.sourcelist ≡ kept_of ops vs l3 =
        kept_of-one vn (multiple_verdict ops own c) after refl append (multiple-stays own c)
          t.sourcelist in
      let e1 : note_timeout ops t curtime n ≡ recount ops t l1 =
        unfold note_timeout in swept-recount ops t vn in
      let e2 : bye_timeout ops (recount ops t l1) curtime b ≡ recount ops t l2 =
        unfold bye_timeout in swept-recount ops (recount ops t l1) vb in
      let e3 : timeout ops (recount ops t l2) curtime g ≡ recount ops t l3 =
        unfold timeout in swept-recount ops (recount ops t l2) vg in
      let e4 : sender_timeout ops (recount ops t l3) curtime s ≡ recount ops t (kept_of ops vs l3) =
        unfold sender_timeout in swept-recount ops (recount ops t l3) vs in
      let e0 : multiple_timeouts ops t curtime s b g n
          ≡ recount ops t (kept_of ops (multiple_verdict ops own c) t.sourcelist) =
        unfold multiple_timeouts in swept-recount ops t (multiple_verdict ops own c) in
      e0
      ∙ ap (recount ops t) lists
      ∙ sym (
          ap
            (λ u.
              sender_timeout ops (timeout ops (bye_timeout ops u curtime b) curtime g) curtime s)
            e1
          ∙ ap (λ u. sender_timeout ops (timeout ops u curtime g) curtime s) e2
          ∙ ap (λ u. sender_timeout ops u curtime s) e3
          ∙ e4)
