-- ===== src/Sources/Leave.antt =====
-- What Timeout, BYETimeout, SenderTimeout and NoteTimeout each leave in the table.
use jrtplib.Sdes.{set_non_private_item, set_string, get_non_private_item}
use jrtplib.Prelude.{
  get_or, set, length, none, some, ◌==◌, ℕ, ◌≡◌, refl, ap, ap₂, ◌∙◌, Bool, false, not, ◌&&◌, ◌||◌,
  map, List, [], ◌∷◌, ◌++◌, Option, if◌then◌else◌, arith, Bool-cases, inl, inr,
}
use jrtplib.Source.Doubles.{DoubleOps}
use jrtplib.Source.Data.{SourceData, clear_sender_flag}
use jrtplib.Sources.{
  SourceTable, Verdict, swept, is_own, timeout_verdict, sender_verdict, bye_verdict, note_verdict,
  clear_note, timeout, sender_timeout, bye_timeout, note_timeout,
}
use jrtplib.Sources.Counted.{stays, kept_of, swept-recount}

module _ {Double : Type 0} (ops : DoubleOps Double) where
  -- The elements that pass a test, in order.
  abbrev pub those :
      (SourceData Double → Bool) → List (SourceData Double) → List (SourceData Double)
  those p [] = []
  those p (d ∷ ds) = if p d then d ∷ those p ds else those p ds

  kept_of-those :
      (v : SourceData Double → Verdict Double) (p : SourceData Double → Bool)
      → ((d : SourceData Double) → stays ops (v d) ≡ (if p d then d ∷ [] else []))
      → (ds : List (SourceData Double)) → kept_of ops v ds ≡ those p ds
  kept_of-those v p h [] = refl
  kept_of-those v p h (d ∷ ds) = elim (Bool-cases (p d)) [
    | inl e ↦ rw e (ap₂ ◌++◌ (h d ∙ ap (λ b. if b then d ∷ [] else []) e) (kept_of-those v p h ds))
    | inr e ↦ rw e (ap₂ ◌++◌ (h d ∙ ap (λ b. if b then d ∷ [] else []) e) (kept_of-those v p h ds))
  ]

  kept_of-map :
      (v : SourceData Double → Verdict Double) (f : SourceData Double → SourceData Double)
      → ((d : SourceData Double) → stays ops (v d) ≡ f d ∷ [])
      → (ds : List (SourceData Double)) → kept_of ops v ds ≡ map f ds
  kept_of-map v f h [] = refl
  kept_of-map v f h (d ∷ ds) = ap₂ ◌++◌ (h d) (kept_of-map v f h ds)

  -- Whether the source is the own one or this time of it is not before the check time.
  abbrev pub recently : Option ℕ → (time checktime : Double) → SourceData Double → Bool
  recently none time checktime d = not (ops.lt time checktime)
  recently (some own) time checktime d = d.ssrc == own || not (ops.lt time checktime)

  -- The note of a source, and whether it has one that was set before the check time.
  abbrev pub note_of : SourceData Double → List ℕ
  note_of d = get_or d.sdesinf.nonprivateitems 6 []

  abbrev pub old_note : Double → SourceData Double → Bool
  old_note checktime d = not (length (note_of d) == 0) && ops.lt d.stats.lastnotetime checktime

  -- The source with an empty note and nothing else changed.
  abbrev pub without_note : SourceData Double → SourceData Double
  without_note d = record d {
    sdesinf = record d.sdesinf { nonprivateitems = set d.sdesinf.nonprivateitems 6 [] };
  }

  recently_own :
      (own : Option ℕ) (time checktime : Double) (d : SourceData Double)
      → recently own time checktime d ≡ (is_own ops own d || not (ops.lt time checktime))
  recently_own none time checktime d = refl
  recently_own (some own) time checktime d = refl

  timeout-stays :
      (own : Option ℕ) (time : Double) (d : SourceData Double)
      → stays ops (timeout_verdict ops own time d)
        ≡ (if recently own d.stats.lastmsgtime time d then d ∷ [] else [])
  unfolding timeout_verdict
  timeout-stays own time d = rw recently_own (elim (Bool-cases (is_own ops own d)) [
    | inl o ↦ rw o refl
    | inr o ↦ elim (Bool-cases (ops.lt d.stats.lastmsgtime time)) [
      | inl l ↦ rw (o, l) refl
      | inr l ↦ rw (o, l) refl
    ]
  ])

  bye-stays :
      (own : Option ℕ) (time : Double) (d : SourceData Double)
      → stays ops (bye_verdict ops own time d)
        ≡ (if not d.receivedbye || recently own d.byetime time d then d ∷ [] else [])
  unfolding bye_verdict
  bye-stays own time d = rw recently_own (elim (Bool-cases (is_own ops own d)) [
    | inl o ↦ elim (Bool-cases d.receivedbye) [ inl l ↦ ground arith | inr l ↦ ground arith ]
    | inr o ↦ elim (Bool-cases (ops.lt d.byetime time)) [
      | inl l ↦ ground arith
      | inr l ↦ ground arith
    ]
  ])

  sender-stays :
      (time : Double) (d : SourceData Double)
      → stays ops (sender_verdict ops time d)
        ≡ (if d.issender && ops.lt d.stats.lastrtptime time
            then record d { issender = false }
            else d)
          ∷ []
  unfolding sender_verdict clear_sender_flag
  sender-stays time d = elim (Bool-cases (d.issender && ops.lt d.stats.lastrtptime time)) [
    | inl e ↦ rw e refl
    | inr e ↦ rw e refl
  ]

  note-stays :
      (time : Double) (d : SourceData Double)
      → stays ops (note_verdict ops time d) ≡ (if old_note time d then without_note d else d) ∷ []
  unfolding note_verdict clear_note set_non_private_item set_string get_non_private_item
  note-stays time d = elim (Bool-cases (old_note time d)) [ inl e ↦ rw e refl | inr e ↦ rw e refl ]

  -- What a timeout leaves in the order of the table, the check time being the current time less the
  -- delay: Timeout the sources that are the own one or whose last message is not before the check
  -- time; BYETimeout those without a BYE, the own one, and those whose BYE is not before it;
  -- SenderTimeout every source, without the sender flag if its last RTP packet is before it; and
  -- NoteTimeout every source, with the note emptied and nothing else changed if it has a note that
  -- was set before it.
  pub timeouts_leave :
      (t : SourceTable Double) (curtime delay : Double)
      → (timeout ops t curtime delay).sourcelist
          ≡ those
              (λ d. recently t.owndata d.stats.lastmsgtime (ops.sub curtime delay) d)
              t.sourcelist
        × (bye_timeout ops t curtime delay).sourcelist
          ≡ those
              (λ d. not d.receivedbye || recently t.owndata d.byetime (ops.sub curtime delay) d)
              t.sourcelist
        × (sender_timeout ops t curtime delay).sourcelist
          ≡ map
              (λ d.
                if d.issender && ops.lt d.stats.lastrtptime (ops.sub curtime delay)
                then record d { issender = false }
                else d)
              t.sourcelist
        × (note_timeout ops t curtime delay).sourcelist
          ≡ map (λ d. if old_note (ops.sub curtime delay) d then without_note d else d) t.sourcelist
  unfolding timeout bye_timeout sender_timeout note_timeout
  timeouts_leave t c g =
      let time = ops.sub c g in
      let left : (v : SourceData Double → Verdict Double)
          → (swept ops t v).sourcelist ≡ kept_of ops v t.sourcelist =
        λ v. ap (λ u. u.sourcelist) (swept-recount ops t v) in
      (
        left (timeout_verdict ops t.owndata time)
            ∙ kept_of-those (timeout_verdict ops t.owndata time)
                (λ d. recently t.owndata d.stats.lastmsgtime time d) (timeout-stays t.owndata time)
                t.sourcelist,
        left (bye_verdict ops t.owndata time)
            ∙ kept_of-those (bye_verdict ops t.owndata time)
                (λ d. not d.receivedbye || recently t.owndata d.byetime time d)
                (bye-stays t.owndata time) t.sourcelist,
        left (sender_verdict ops time)
            ∙ kept_of-map (sender_verdict ops time)
                (λ d.
                  if d.issender && ops.lt d.stats.lastrtptime time
                  then record d { issender = false }
                  else d)
                (sender-stays time) t.sourcelist,
        left (note_verdict ops time)
            ∙ kept_of-map (note_verdict ops time)
                (λ d. if old_note time d then without_note d else d) (note-stays time) t.sourcelist,
      )
