-- ===== src/Sources/Csrcs.antt =====
-- What a CSRC of a packet does to the counters of RTPSources.
use jrtplib.Prelude.{
  ℕ, ◌+◌, ◌≡◌, refl, Bool, true, false, not, ◌&&◌, List, some, bit, length, ok, arith, ◌≢◌, ap, sym,
  ◌∙◌, Bool-cases, inl, inr, ◌==◌, if◌then◌else◌, [], ◌∷◌,
}
use jrtplib.Source.Doubles.{DoubleOps}
use jrtplib.Source.Data.{SourceData, set_csrc, is_active}
use jrtplib.Sources.{
  SourceTable, find_source, got_entry, change_source, obtain_source, process_csrc,
}
use jrtplib.Sources.Counted.{
  some-injective, count_senders, count_active, sum_of-change_source, length-sum_of,
}
use jrtplib.Sources.Kept.{Counted}

module _ {Double : Type 0} (ops : DoubleOps Double) where
  found-got_entry :
      (ds : List (SourceData Double)) (ssrc : ℕ) (d : SourceData Double)
      → find_source ops ds ssrc ≡ some d
      → got_entry ops ds ssrc ≡ true
  unfolding got_entry
  found-got_entry ds ssrc d e = rw (e, got_entry) refl

  found-obtain_source :
      (t : SourceTable Double) (given : Bool) (ssrc : ℕ) (d : SourceData Double)
      → find_source ops t.sourcelist ssrc ≡ some d
      → obtain_source ops t given ssrc ≡ ok (t, false)
  unfolding obtain_source
  found-obtain_source t given ssrc d e =
      rw (found-got_entry t.sourcelist ssrc d e, obtain_source) refl

  -- What is found once the source of an SSRC is marked: the marked source there, and what was found
  -- before at every other SSRC.
  found-change :
      (ds : List (SourceData Double)) (ssrc : ℕ) (d : SourceData Double)
      → find_source ops ds ssrc ≡ some d
      → find_source ops (change_source ops ds ssrc (set_csrc ops)) ssrc
        ≡ some (record d { validated = true; iscsrc = true })
  unfolding find_source change_source set_csrc
  found-change [] ssrc d e = cc
  found-change (x ∷ ds) ssrc d e = elim (Bool-cases (x.ssrc == ssrc)) [
    | inl here ↦
        let found : x ≡ d =
          some-injective (sym (ap (λ b. if b then some x else find_source ops ds ssrc) here) ∙ e) in
        rw (here, here) (ap (λ y. some (set_csrc ops y)) found)
    | inr there ↦
        let later : find_source ops ds ssrc ≡ some d =
          sym (ap (λ b. if b then some x else find_source ops ds ssrc) there) ∙ e in
        rw (there, there) (found-change ds ssrc d later)
  ]

  others-change :
      (ds : List (SourceData Double)) (ssrc k : ℕ)
      → k ≢ ssrc
      → find_source ops (change_source ops ds ssrc (set_csrc ops)) k ≡ find_source ops ds k
  unfolding find_source change_source set_csrc
  others-change [] ssrc k ne = refl
  others-change (x ∷ ds) ssrc k ne = elim (Bool-cases (x.ssrc == ssrc)) [
    | inl here ↦
        let other : (x.ssrc == k) ≡ false = ground arith in
        let rest = find_source ops ds k in
        let changed : find_source ops (set_csrc ops x ∷ ds) k ≡ find_source ops (x ∷ ds) k =
          ap (λ b. if b then some (set_csrc ops x) else rest) other
          ∙ sym (ap (λ b. if b then some x else rest) other) in
        rw here changed
    | inr there ↦
        rw there (ap (λ o. if x.ssrc == k then some x else o) (others-change ds ssrc k ne))
  ]

  -- In a table whose counters are right, a CSRC whose source is there already and does not collide
  -- marks that source as validated and as a CSRC and changes no other. The total and the number of
  -- senders stay right, but activecount stays as it is: it is one too low if the source was not
  -- validated and has not left, and right otherwise.
  pub process_csrc_active :
      (t : SourceTable Double) (given : Bool) (ssrc : ℕ) (d : SourceData Double)
      → Counted ops t
      → find_source ops t.sourcelist ssrc ≡ some d
      → (t' : SourceTable Double) × (process_csrc ops t given false ssrc ≡ ok t')
        × (find_source ops t'.sourcelist ssrc ≡ some (record d { validated = true; iscsrc = true }))
        × ((k : ℕ) → k ≢ ssrc → find_source ops t'.sourcelist k ≡ find_source ops t.sourcelist k)
        × (t'.activecount ≡ t.activecount)
        × (t'.totalcount ≡ length t'.sourcelist)
        × (t'.sendercount ≡ count_senders ops t'.sourcelist)
        × (t'.activecount + bit (not d.validated && not d.receivedbye)
            ≡ count_active ops t'.sourcelist)
  unfolding process_csrc set_csrc is_active
  process_csrc_active t given ssrc d c e =
      let ds : List (SourceData Double) = change_source ops t.sourcelist ssrc (set_csrc ops) in
      let changed = λ (m : SourceData Double → ℕ).
        sum_of-change_source ops m t.sourcelist ssrc d (set_csrc ops) e in
      let more : bit (is_active ops (set_csrc ops d))
          ≡ bit (is_active ops d) + bit (not d.validated && not d.receivedbye) =
        ground arith in
      (
        record t { sourcelist = ds },
        rw (found-obtain_source t given ssrc d e, process_csrc) refl,
        found-change t.sourcelist ssrc d e,
        others-change t.sourcelist ssrc,
        refl,
        omega (
          arith,
          c.total,
          changed (λ d. 1),
          length-sum_of ops t.sourcelist,
          length-sum_of ops ds,
        ),
        omega (arith, c.senders, changed (λ d. bit d.issender)),
        omega (arith, c.active, changed (λ d. bit (is_active ops d)), more),
      )
