-- ===== src/Sources/Runs.antt =====
-- The counters of RTPSources count its sources, in every run of calls.
use jrtplib.Prelude.{
  ℕ, ◌+◌, ◌≡◌, refl, sym, subst, Bool, true, false, not, ◌&&◌, List, [], ◌∷◌, ◌++◌, Option, none,
  some, Option-cases, Outcome, ok, err, fault, arith, Bool-cases, inl, inr, length-append, bit,
}
use jrtplib.Source.Doubles.{DoubleOps}
use jrtplib.Source.Data.{SourceData, ProbationType, is_active}
use jrtplib.Sources.{
  SourceTable, new_table, new_source, find_source, got_entry, obtain_source, own_created,
  create_own_ssrc, delete_own_ssrc, own_deleted, change_source, packet_sent, sent_rtp_packet,
  clear_source_list, timeout, sender_timeout, bye_timeout, note_timeout, multiple_timeouts,
}
use jrtplib.Sources.Counted.{sum_of-append}
use jrtplib.Sources.Kept.{
  Counted, OwnThere, find_source-append_some, own_created-Counted, own_deleted-Counted,
  packet_sent-Counted, swept-Counted, timeout-SparesOne, sender-SparesOne, bye-SparesOne,
  note-SparesOne,
}
use jrtplib.Sources.Timeouts.{multiple_timeouts-sender_timeout}

-- The calls with their arguments: whether there is memory, SSRCs, the current time and timeouts.
pub data TableCall (Double : Type 0) : Type 0 where
  create_own_call : Bool → ℕ → TableCall Double
  delete_own_call : TableCall Double
  sent_call : Double → TableCall Double
  obtain_call : Bool → ℕ → TableCall Double
  timeout_call : Double → Double → TableCall Double
  sender_timeout_call : Double → Double → TableCall Double
  bye_timeout_call : Double → Double → TableCall Double
  note_timeout_call : Double → Double → TableCall Double
  multiple_timeouts_call : Double → Double → Double → Double → Double → TableCall Double
  clear_call : TableCall Double

module _ {Double : Type 0} (ops : DoubleOps Double) where
  obtained : SourceTable Double → Outcome (SourceTable Double × Bool) → SourceTable Double
  obtained t (ok (t', created)) = t'
  obtained t (err e) = t
  obtained t fault = t

  unfoldable pub perform_on_table : SourceTable Double → TableCall Double → SourceTable Double
  unfolding obtained create_own_ssrc delete_own_ssrc sent_rtp_packet obtain_source timeout
      sender_timeout bye_timeout note_timeout multiple_timeouts
  perform_on_table t (create_own_call given ssrc) = (create_own_ssrc ops t given ssrc).0
  perform_on_table t delete_own_call = (delete_own_ssrc ops t).0
  perform_on_table t (sent_call now) = sent_rtp_packet ops t now
  perform_on_table t (obtain_call given ssrc) = obtained t (obtain_source ops t given ssrc)
  perform_on_table t (timeout_call now delay) = timeout ops t now delay
  perform_on_table t (sender_timeout_call now delay) = sender_timeout ops t now delay
  perform_on_table t (bye_timeout_call now delay) = bye_timeout ops t now delay
  perform_on_table t (note_timeout_call now delay) = note_timeout ops t now delay
  perform_on_table t (multiple_timeouts_call now s b g n) = multiple_timeouts ops t now s b g n
  perform_on_table t clear_call = clear_source_list ops t

  -- The table behind a run of calls.
  unfoldable pub run_on_table : SourceTable Double → List (TableCall Double) → SourceTable Double
  unfolding perform_on_table
  run_on_table t [] = t
  run_on_table t (c ∷ cs) = run_on_table (perform_on_table t c) cs

  new_table-Counted : (p : ProbationType) → Counted ops (new_table ops p)
  new_table-Counted p = record { total = refl; senders = refl; active = refl; own = tt }

  got_entry-find_source :
      (t : SourceTable Double) (ssrc : ℕ)
      → got_entry ops t.sourcelist ssrc ≡ false
      → find_source ops t.sourcelist ssrc ≡ none
  unfolding got_entry
  got_entry-find_source t ssrc e = elim (Option-cases (find_source ops t.sourcelist ssrc)) [
    | inl n ↦ n
    | inr (d, f) ↦ absurd (ground arith)
  ]

  create_own_ssrc-Counted :
      (t : SourceTable Double) (given : Bool) (ssrc : ℕ)
      → Counted ops t
      → Counted ops (create_own_ssrc ops t given ssrc).0
  unfolding create_own_ssrc obtain_source
  create_own_ssrc-Counted t given ssrc c = elim (Option-cases t.owndata) [
    | inr (own, o) ↦
        let e : (create_own_ssrc ops t given ssrc).0 ≡ t = ground arith in
        subst (Counted ops) (sym e) c
    | inl o ↦ elim (Bool-cases (got_entry ops t.sourcelist ssrc)) [
      | inl got ↦
          let e : (create_own_ssrc ops t given ssrc).0 ≡ t = ground arith in
          subst (Counted ops) (sym e) c
      | inr new ↦ elim (Bool-cases given) [
        | inl g ↦
            let t' : SourceTable Double = record t {
              sourcelist = t.sourcelist ++ (new_source ops ssrc t.probationtype ∷ []);
              totalcount = t.totalcount + 1;
            } in
            let e : (create_own_ssrc ops t given ssrc).0 ≡ own_created ops t' ssrc = ground arith in
            subst (Counted ops) (sym e)
              (own_created-Counted ops t ssrc c (got_entry-find_source t ssrc new))
        | inr g ↦
            let e : (create_own_ssrc ops t given ssrc).0 ≡ t = ground arith in
            subst (Counted ops) (sym e) c
      ]
    ]
  ]

  -- An own source is in the table.
  own_found :
      (t : SourceTable Double) (ssrc : ℕ)
      → Counted ops t
      → t.owndata ≡ some ssrc
      → (d : SourceData Double) × (find_source ops t.sourcelist ssrc ≡ some d) × (d.ownssrc ≡ true)
  own_found t ssrc c o = subst (OwnThere ops t.sourcelist) o c.own

  delete_own_ssrc-Counted :
      (t : SourceTable Double) → Counted ops t → Counted ops (delete_own_ssrc ops t).0
  unfolding delete_own_ssrc
  delete_own_ssrc-Counted t c = elim (Option-cases t.owndata) [
    | inl o ↦ let e : (delete_own_ssrc ops t).0 ≡ t = ground arith in subst (Counted ops) (sym e) c
    | inr (ssrc, o) ↦
        let (d, f, h) = own_found t ssrc c o in
        let e : (delete_own_ssrc ops t).0 ≡ own_deleted ops t ssrc d = ground arith in
        subst (Counted ops) (sym e) (own_deleted-Counted ops t ssrc d c f)
  ]

  sent_rtp_packet-Counted :
      (t : SourceTable Double) (now : Double)
      → Counted ops t
      → Counted ops (sent_rtp_packet ops t now)
  unfolding sent_rtp_packet
  sent_rtp_packet-Counted t now c = elim (Option-cases t.owndata) [
    | inl o ↦ let e : sent_rtp_packet ops t now ≡ t = ground arith in subst (Counted ops) (sym e) c
    | inr (ssrc, o) ↦
        let (d, f, h) = own_found t ssrc c o in
        let sent = packet_sent-Counted ops t ssrc d now c o f h in
        let e : sent_rtp_packet ops t now ≡ record t {
          sourcelist = change_source ops t.sourcelist ssrc (packet_sent ops now);
          sendercount = t.sendercount + bit (not d.issender && (packet_sent ops now d).issender);
        } =
          ground arith in
        subst (Counted ops) (sym e) sent
  ]

  obtain_source-Counted :
      (t : SourceTable Double) (given : Bool) (ssrc : ℕ)
      → Counted ops t
      → Counted ops (obtained t (obtain_source ops t given ssrc))
  unfolding obtain_source obtained is_active
  obtain_source-Counted t given ssrc c = elim (Bool-cases (got_entry ops t.sourcelist ssrc)) [
    | inl got ↦ rw got c
    | inr new ↦ elim (Bool-cases given) [
      | inr g ↦ rw (new, g) c
      | inl g ↦
          let d : SourceData Double = new_source ops ssrc t.probationtype in
          let added = λ (m : SourceData Double → ℕ). sum_of-append ops m t.sourcelist d in
          rw (new, g)
            (record {
              total = omega (arith, c.total, length-append t.sourcelist (d ∷ []));
              senders = omega (arith, c.senders, added (λ d. bit d.issender));
              active = omega (arith, c.active, added (λ d. bit (is_active ops d)));
              own = go t.owndata d c.own;
            })
    ]
  ]
    where
      go :
          (own : Option ℕ) (d : SourceData Double)
          → OwnThere ops t.sourcelist own
          → OwnThere ops (t.sourcelist ++ (d ∷ [])) own
      go none d o = tt
      go (some s) d (x, e, h) = (x, find_source-append_some ops t.sourcelist (d ∷ []) s x e, h)

  timeout-Counted :
      (t : SourceTable Double) (now delay : Double)
      → Counted ops t
      → Counted ops (timeout ops t now delay)
  unfolding timeout
  timeout-Counted t now delay k =
      swept-Counted ops t _ (timeout-SparesOne ops t.owndata (ops.sub now delay)) k

  sender_timeout-Counted :
      (t : SourceTable Double) (now delay : Double)
      → Counted ops t
      → Counted ops (sender_timeout ops t now delay)
  unfolding sender_timeout
  sender_timeout-Counted t now delay k =
      swept-Counted ops t _ (sender-SparesOne ops t.owndata (ops.sub now delay)) k

  bye_timeout-Counted :
      (t : SourceTable Double) (now delay : Double)
      → Counted ops t
      → Counted ops (bye_timeout ops t now delay)
  unfolding bye_timeout
  bye_timeout-Counted t now delay k =
      swept-Counted ops t _ (bye-SparesOne ops t.owndata (ops.sub now delay)) k

  note_timeout-Counted :
      (t : SourceTable Double) (now delay : Double)
      → Counted ops t
      → Counted ops (note_timeout ops t now delay)
  unfolding note_timeout
  note_timeout-Counted t now delay k =
      swept-Counted ops t _ (note-SparesOne ops t.owndata (ops.sub now delay)) k

  perform_on_table-Counted :
      (t : SourceTable Double) (c : TableCall Double)
      → Counted ops t
      → Counted ops (perform_on_table t c)
  unfolding perform_on_table
  perform_on_table-Counted t (create_own_call given ssrc) k = create_own_ssrc-Counted t given ssrc k
  perform_on_table-Counted t delete_own_call k = delete_own_ssrc-Counted t k
  perform_on_table-Counted t (sent_call now) k = sent_rtp_packet-Counted t now k
  perform_on_table-Counted t (obtain_call given ssrc) k = obtain_source-Counted t given ssrc k
  perform_on_table-Counted t (timeout_call now delay) k = timeout-Counted t now delay k
  perform_on_table-Counted t (sender_timeout_call now delay) k =
      sender_timeout-Counted t now delay k
  perform_on_table-Counted t (bye_timeout_call now delay) k = bye_timeout-Counted t now delay k
  perform_on_table-Counted t (note_timeout_call now delay) k = note_timeout-Counted t now delay k
  perform_on_table-Counted t (multiple_timeouts_call now s b g n) k =
      subst (Counted ops) (sym (multiple_timeouts-sender_timeout ops t now s b g n)) (
        sender_timeout-Counted _ now s
          (timeout-Counted _ now g (bye_timeout-Counted _ now b (note_timeout-Counted t now n k))))
  perform_on_table-Counted t clear_call k = new_table-Counted t.probationtype

  run_on_table-keeps :
      (t : SourceTable Double) (cs : List (TableCall Double))
      → Counted ops t
      → Counted ops (run_on_table t cs)
  unfolding run_on_table
  run_on_table-keeps t [] k = k
  run_on_table-keeps t (c ∷ cs) k =
      run_on_table-keeps (perform_on_table t c) cs (perform_on_table-Counted t c k)

  -- After any run of these calls on a new RTPSources, the three counters are the numbers of the
  -- sources, of the senders and of the active sources in the table, and the own source, if there is
  -- one, is in the table and marked as own: no timeout removes it.
  pub run_on_table-Counted :
      (p : ProbationType) (cs : List (TableCall Double))
      → Counted ops (run_on_table (new_table ops p) cs)
  run_on_table-Counted p cs = run_on_table-keeps (new_table ops p) cs (new_table-Counted p)
