-- ===== src/Sources/Kept.antt =====
-- The calls of RTPSources keep the counters in step with the sources.
use jrtplib.Prelude.{
  ℕ, ◌+◌, ◌≡◌, ◌≢◌, refl, ap, sym, subst, ◌∙◌, Bool, true, false, not, ◌&&◌, List, [], ◌∷◌, ◌++◌,
  Option, none, some, length, ==_refl, bit, if◌then◌else◌, ◌==◌, arith, Bool-cases, inl, inr,
}
use jrtplib.Source.Doubles.{DoubleOps}
use jrtplib.Source.Data.{SourceData, set_own_ssrc, clear_sender_flag, is_active}
use jrtplib.Sources.{
  SourceTable, Verdict, keep, remove, is_own, new_source, find_source, change_source, delete_source,
  own_created, own_deleted, packet_sent, swept, timeout_verdict, sender_verdict, bye_verdict,
  note_verdict, note_timed_out, clear_note,
}
use jrtplib.Sources.Counted.{
  count_senders, count_active, stays, kept_of, swept-recount, sum_of-append, sum_of-change_source,
  sum_of-delete_source, length-sum_of, some-injective,
}

module _ {Double : Type 0} (ops : DoubleOps Double) where
  -- The own source is in the list.
  abbrev pub OwnThere : List (SourceData Double) → Option ℕ → Type 0
  OwnThere ds none = Unit
  OwnThere ds (some ssrc) =
      (d : SourceData Double) × (find_source ops ds ssrc ≡ some d) × (d.ownssrc ≡ true)

  pub record Counted (t : SourceTable Double) : Type 0 where
    pub total : t.totalcount ≡ length t.sourcelist
    pub senders : t.sendercount ≡ count_senders ops t.sourcelist
    pub active : t.activecount ≡ count_active ops t.sourcelist
    pub own : OwnThere t.sourcelist t.owndata

  find_source-key :
      (ds : List (SourceData Double)) (ssrc : ℕ) (d : SourceData Double)
      → find_source ops ds ssrc ≡ some d
      → (d.ssrc == ssrc) ≡ true
  unfolding find_source
  find_source-key [] ssrc d e = cc
  find_source-key (x ∷ ds) ssrc d e = elim (Bool-cases (x.ssrc == ssrc)) [
    | inl here ↦
        let found : x ≡ d =
          some-injective (sym (ap (λ b. if b then some x else find_source ops ds ssrc) here) ∙ e) in
        subst (λ y. (y.ssrc == ssrc) ≡ true) found here
    | inr there ↦
        find_source-key ds ssrc d
          (sym (ap (λ b. if b then some x else find_source ops ds ssrc) there) ∙ e)
  ]

  find_source-change_source :
      (ds : List (SourceData Double)) (ssrc : ℕ) (d : SourceData Double)
      (f : SourceData Double → SourceData Double)
      → find_source ops ds ssrc ≡ some d
      → ((d : SourceData Double) → (f d).ssrc ≡ d.ssrc)
      → find_source ops (change_source ops ds ssrc f) ssrc ≡ some (f d)
  unfolding find_source change_source
  find_source-change_source [] ssrc d f e k = cc
  find_source-change_source (x ∷ ds) ssrc d f e k = elim (Bool-cases (x.ssrc == ssrc)) [
    | inl here ↦
        let found : x ≡ d =
          some-injective (sym (ap (λ b. if b then some x else find_source ops ds ssrc) here) ∙ e) in
        let again : ((f x).ssrc == ssrc) ≡ true = ap (λ k. k == ssrc) (k x) ∙ here in
        rw (here, again) (ap (λ y. some (f y)) found)
    | inr there ↦
        let later : find_source ops ds ssrc ≡ some d =
          sym (ap (λ b. if b then some x else find_source ops ds ssrc) there) ∙ e in
        rw (there, there) (find_source-change_source ds ssrc d f later k)
  ]

  find_source-append :
      (ds es : List (SourceData Double)) (ssrc : ℕ)
      → find_source ops ds ssrc ≡ none
      → find_source ops (ds ++ es) ssrc ≡ find_source ops es ssrc
  unfolding find_source
  find_source-append [] es ssrc e = refl
  find_source-append (x ∷ ds) es ssrc e = elim (Bool-cases (x.ssrc == ssrc)) [
    | inl here ↦
        absurd
          (some_not_none (sym (ap (λ b. if b then some x else find_source ops ds ssrc) here) ∙ e))
    | inr there ↦
        let later : find_source ops ds ssrc ≡ none =
          sym (ap (λ b. if b then some x else find_source ops ds ssrc) there) ∙ e in
        rw there (find_source-append ds es ssrc later)
  ]
    where
      some_not_none : {A : Type 0} {a : A} → some a ≢ none
      some_not_none e = cc

  pub find_source-append_some :
      (ds es : List (SourceData Double)) (ssrc : ℕ) (d : SourceData Double)
      → find_source ops ds ssrc ≡ some d
      → find_source ops (ds ++ es) ssrc ≡ some d
  unfolding find_source
  find_source-append_some [] es ssrc d e = cc
  find_source-append_some (x ∷ ds) es ssrc d e = elim (Bool-cases (x.ssrc == ssrc)) [
    | inl here ↦ rw here (sym (ap (λ b. if b then some x else find_source ops ds ssrc) here) ∙ e)
    | inr there ↦
        let later : find_source ops ds ssrc ≡ some d =
          sym (ap (λ b. if b then some x else find_source ops ds ssrc) there) ∙ e in
        rw there (find_source-append_some ds es ssrc d later)
  ]

  -- What changes a source and leaves its SSRC changes the counters by what it changes of it.
  pub own_created-Counted :
      (t : SourceTable Double) (ssrc : ℕ)
      → Counted t
      → find_source ops t.sourcelist ssrc ≡ none
      → Counted (
          own_created ops
            (record t {
              sourcelist = t.sourcelist ++ (new_source ops ssrc t.probationtype ∷ []);
              totalcount = t.totalcount + 1;
            })
            ssrc)
  unfolding set_own_ssrc is_active
  own_created-Counted t ssrc c e =
      let new : SourceData Double = new_source ops ssrc t.probationtype in
      let ds : List (SourceData Double) = t.sourcelist ++ (new ∷ []) in
      let there : find_source ops ds ssrc ≡ some new =
        find_source-append t.sourcelist (new ∷ []) ssrc e
        ∙ (unfold find_source in rw (==_refl ssrc) refl) in
      let changed = λ (m : SourceData Double → ℕ).
        sum_of-change_source ops m ds ssrc new (set_own_ssrc ops) there in
      let added = λ (m : SourceData Double → ℕ). sum_of-append ops m t.sourcelist new in
      record {
        total = omega (
          arith,
          c.total,
          changed (λ d. 1),
          added (λ d. 1),
          length-sum_of ops t.sourcelist,
          length-sum_of ops (change_source ops ds ssrc (set_own_ssrc ops)),
        );
        senders =
            omega (arith, c.senders, changed (λ d. bit d.issender), added (λ d. bit d.issender));
        active = omega (
          arith,
          c.active,
          changed (λ d. bit (is_active ops d)),
          added (λ d. bit (is_active ops d)),
        );
        own = (
          set_own_ssrc ops new,
          find_source-change_source ds ssrc new (set_own_ssrc ops) there (λ d. refl),
          refl,
        );
      }

  pub own_deleted-Counted :
      (t : SourceTable Double) (ssrc : ℕ) (d : SourceData Double)
      → Counted t
      → find_source ops t.sourcelist ssrc ≡ some d
      → Counted (own_deleted ops t ssrc d)
  own_deleted-Counted t ssrc d c e =
      let gone = λ (m : SourceData Double → ℕ). sum_of-delete_source ops m t.sourcelist ssrc d e in
      record {
        total = omega (
          arith,
          c.total,
          gone (λ d. 1),
          length-sum_of ops t.sourcelist,
          length-sum_of ops (delete_source ops t.sourcelist ssrc),
        );
        senders = omega (arith, c.senders, gone (λ d. bit d.issender));
        active = omega (arith, c.active, gone (λ d. bit (is_active ops d)));
        own = tt;
      }

  pub packet_sent-Counted :
      (t : SourceTable Double) (ssrc : ℕ) (d : SourceData Double) (now : Double)
      → Counted t
      → t.owndata ≡ some ssrc
      → find_source ops t.sourcelist ssrc ≡ some d
      → d.ownssrc ≡ true
      → Counted (record t {
        sourcelist = change_source ops t.sourcelist ssrc (packet_sent ops now);
        sendercount = t.sendercount + bit (not d.issender && (packet_sent ops now d).issender);
      })
  unfolding is_active
  packet_sent-Counted t ssrc d now c o e h =
      let changed = λ (m : SourceData Double → ℕ).
        sum_of-change_source ops m t.sourcelist ssrc d (packet_sent ops now) e in
      let sender : (packet_sent ops now d).issender ≡ true = rw h refl in
      let alive : is_active ops (packet_sent ops now d) ≡ is_active ops d = rw h refl in
      let once : bit (not d.issender && (packet_sent ops now d).issender) + bit d.issender
          ≡ bit (packet_sent ops now d).issender =
        ground arith in
      record {
        total = omega (
          arith,
          c.total,
          changed (λ d. 1),
          length-sum_of ops t.sourcelist,
          length-sum_of ops (change_source ops t.sourcelist ssrc (packet_sent ops now)),
        );
        senders = omega (arith, c.senders, changed (λ d. bit d.issender), once);
        active = omega (arith, c.active, changed (λ d. bit (is_active ops d)), ap bit alive);
        own = rw o (
          packet_sent ops now d,
          find_source-change_source t.sourcelist ssrc d (packet_sent ops now) e (λ x. ground arith),
          rw h refl,
        );
      }

  -- The own source is not removed, and a source that stays keeps its SSRC and its flag.
  abbrev SparesOne : Option ℕ → SourceData Double → Verdict Double → Type 0
  SparesOne own d (keep d' events) = (d'.ssrc ≡ d.ssrc) × (d'.ownssrc ≡ d.ownssrc)
  SparesOne own d (remove events) = is_own ops own d ≡ false

  find_source-kept_of :
      (v : SourceData Double → Verdict Double) (ds : List (SourceData Double)) (ssrc : ℕ)
      → ((d : SourceData Double) → SparesOne (some ssrc) d (v d))
      → OwnThere ds (some ssrc)
      → OwnThere (kept_of ops v ds) (some ssrc)
  unfolding find_source
  find_source-kept_of v [] ssrc s (d, e, o) = cc
  find_source-kept_of v (x ∷ ds) ssrc s own =
      go (v x) (s x) own (λ later. find_source-kept_of v ds ssrc s later)
    where
      go :
          (w : Verdict Double)
          → SparesOne (some ssrc) x w
          → OwnThere (x ∷ ds) (some ssrc)
          → (OwnThere ds (some ssrc) → OwnThere (kept_of ops v ds) (some ssrc))
          → OwnThere (stays ops w ++ kept_of ops v ds) (some ssrc)
      go (remove events) other (d, e, o) ih =
          ih (d, sym (ap (λ b. if b then some x else find_source ops ds ssrc) other) ∙ e, o)
      go (keep y events) (k, f) (d, e, o) ih = elim (Bool-cases (x.ssrc == ssrc)) [
        | inl here ↦
            let found : x ≡ d =
              some-injective
                (sym (ap (λ b. if b then some x else find_source ops ds ssrc) here) ∙ e) in
            let again : (y.ssrc == ssrc) ≡ true = ap (λ n. n == ssrc) k ∙ here in
            (y, rw again refl, f ∙ ap (λ z. z.ownssrc) found ∙ o)
        | inr there ↦
            let (d', e', o') =
              ih (d, sym (ap (λ b. if b then some x else find_source ops ds ssrc) there) ∙ e, o) in
            let again : (y.ssrc == ssrc) ≡ false = ap (λ n. n == ssrc) k ∙ there in
            (d', rw again e', o')
      ]

  pub swept-Counted :
      (t : SourceTable Double) (v : SourceData Double → Verdict Double)
      → ((d : SourceData Double) → SparesOne t.owndata d (v d))
      → Counted t
      → Counted (swept ops t v)
  swept-Counted t v s c =
      rw (swept-recount ops t v)
        (record { total = refl; senders = refl; active = refl; own = go t.owndata s c.own })
    where
      go :
          (own : Option ℕ)
          → ((d : SourceData Double) → SparesOne own d (v d))
          → OwnThere t.sourcelist own
          → OwnThere (kept_of ops v t.sourcelist) own
      go none s o = tt
      go (some ssrc) s o = find_source-kept_of v t.sourcelist ssrc s o

  if_spares :
      (own : Option ℕ) (d : SourceData Double) (b : Bool) (x y : Verdict Double)
      → (b ≡ true → SparesOne own d x)
      → SparesOne own d y
      → SparesOne own d (if b then x else y)
  if_spares own d true x y f g = f refl
  if_spares own d false x y f g = g

  pub timeout-SparesOne :
      (own : Option ℕ) (time : Double) (d : SourceData Double)
      → SparesOne own d (timeout_verdict ops own time d)
  unfolding timeout_verdict
  timeout-SparesOne own time d =
      if_spares own d (not (is_own ops own d) && ops.lt d.stats.lastmsgtime time) _ _
        (λ e. ground arith) (refl, refl)

  pub sender-SparesOne :
      (own : Option ℕ) (time : Double) (d : SourceData Double)
      → SparesOne own d (sender_verdict ops time d)
  unfolding sender_verdict clear_sender_flag
  sender-SparesOne own time d =
      if_spares own d (d.issender && ops.lt d.stats.lastrtptime time) _ _ (λ e. (refl, refl))
        (refl, refl)

  pub bye-SparesOne :
      (own : Option ℕ) (time : Double) (d : SourceData Double)
      → SparesOne own d (bye_verdict ops own time d)
  unfolding bye_verdict
  bye-SparesOne own time d =
      if_spares own d (d.receivedbye && (not (is_own ops own d) && ops.lt d.byetime time)) _ _
        (λ e. ground arith) (refl, refl)

  pub note-SparesOne :
      (own : Option ℕ) (time : Double) (d : SourceData Double)
      → SparesOne own d (note_verdict ops time d)
  unfolding note_verdict clear_note
  note-SparesOne own time d =
      if_spares own d (note_timed_out ops time d) _ _ (λ e. (refl, refl)) (refl, refl)
