-- ===== src/Sources/Counted.antt =====
-- The counters of RTPSources, and what the loops of the timeouts make of the list of sources.
use jrtplib.Prelude.{
  ℕ, ◌+◌, ◌≡◌, refl, ap, sym, ◌∙◌, List, [], some, Bool-cases, inl, inr, ◌==◌, if◌then◌else◌, ◌∷◌,
  ◌++◌, length, bit, arith,
}
use jrtplib.Source.Doubles.{DoubleOps}
use jrtplib.Source.Data.{SourceData, is_active}
use jrtplib.Sources.{
  SourceTable, Verdict, keep, remove, find_source, change_source, delete_source, Sweep, sweep_one,
  sweep, swept,
}

pub some-injective : {A : Type 0} {a b : A} → some a ≡ some b → a ≡ b
some-injective e = cc

module _ {Double : Type 0} (ops : DoubleOps Double) where
  abbrev pub sum_of : (SourceData Double → ℕ) → List (SourceData Double) → ℕ
  sum_of m [] = 0
  sum_of m (d ∷ ds) = sum_of m ds + m d

  abbrev pub count_senders : List (SourceData Double) → ℕ
  count_senders ds = sum_of (λ d. bit d.issender) ds

  abbrev pub count_active : List (SourceData Double) → ℕ
  count_active ds = sum_of (λ d. bit (is_active ops d)) ds

  -- The table with these sources, and counters that count them.
  abbrev pub recount : SourceTable Double → List (SourceData Double) → SourceTable Double
  recount t ds = record t {
    sourcelist = ds;
    totalcount = length ds;
    sendercount = count_senders ds;
    activecount = count_active ds;
  }

  -- The source that stays, if one does.
  abbrev pub stays : Verdict Double → List (SourceData Double)
  stays (keep d events) = d ∷ []
  stays (remove events) = []

  abbrev pub kept_of :
      (SourceData Double → Verdict Double) → List (SourceData Double) → List (SourceData Double)
  kept_of verdict [] = []
  kept_of verdict (d ∷ ds) = stays (verdict d) ++ kept_of verdict ds

  -- What a loop has gathered is a list of sources and its counts.
  Gathered : Sweep ops → List (SourceData Double) → Type 0
  Gathered s ds =
      (s.kept ≡ ds)
      × (s.newtotalcount ≡ length ds)
      × (s.newsendercount ≡ count_senders ds)
      × (s.newactivecount ≡ count_active ds)

  sweep_one-Gathered :
      (v : Verdict Double) (s : Sweep ops) (ds : List (SourceData Double))
      → Gathered s ds
      → Gathered (sweep_one ops v s) (stays v ++ ds)
  unfolding sweep_one Gathered
  sweep_one-Gathered (remove events) s ds g = g
  sweep_one-Gathered (keep d events) s ds (k, t, n, a) =
      (ap (◌∷◌ d) k, omega (arith, t), omega (arith, n), omega (arith, a))

  sweep-Gathered :
      (v : SourceData Double → Verdict Double) (ds : List (SourceData Double))
      → Gathered (sweep ops v ds) (kept_of v ds)
  unfolding sweep Gathered
  sweep-Gathered v [] = (refl, refl, refl, refl)
  sweep-Gathered v (d ∷ ds) =
      sweep_one-Gathered (v d) (sweep ops v ds) (kept_of v ds) (sweep-Gathered v ds)

  pub swept-recount :
      (t : SourceTable Double) (v : SourceData Double → Verdict Double)
      → swept ops t v ≡ recount t (kept_of v t.sourcelist)
  unfolding swept Gathered
  swept-recount t v = let (k, n, s, a) = sweep-Gathered v t.sourcelist in rw (k, n, s, a) refl

  pub sum_of-append :
      (m : SourceData Double → ℕ) (ds : List (SourceData Double)) (d : SourceData Double)
      → sum_of m (ds ++ (d ∷ [])) ≡ sum_of m ds + m d
  sum_of-append m [] d = refl
  sum_of-append m (x ∷ ds) d = omega (arith, sum_of-append m ds d)

  -- The sum over the list in which the source of this SSRC is changed or deleted.
  pub sum_of-change_source :
      (m : SourceData Double → ℕ) (ds : List (SourceData Double)) (ssrc : ℕ) (d : SourceData Double)
      (f : SourceData Double → SourceData Double)
      → find_source ops ds ssrc ≡ some d
      → sum_of m (change_source ops ds ssrc f) + m d ≡ sum_of m ds + m (f d)
  unfolding find_source change_source
  sum_of-change_source m [] ssrc d f e = cc
  sum_of-change_source m (x ∷ ds) ssrc d f e = elim (Bool-cases (x.ssrc == ssrc)) [
    | inl here ↦
        let found : x ≡ d =
          some-injective (sym (ap (λ b. if b then some x else find_source ops ds ssrc) here) ∙ e) in
        rw here (omega (arith, ap m found, ap (λ y. m (f y)) found))
    | inr there ↦
        let later : find_source ops ds ssrc ≡ some d =
          sym (ap (λ b. if b then some x else find_source ops ds ssrc) there) ∙ e in
        rw there (omega (arith, sum_of-change_source m ds ssrc d f later))
  ]

  pub sum_of-delete_source :
      (m : SourceData Double → ℕ) (ds : List (SourceData Double)) (ssrc : ℕ) (d : SourceData Double)
      → find_source ops ds ssrc ≡ some d
      → sum_of m (delete_source ops ds ssrc) + m d ≡ sum_of m ds
  unfolding find_source delete_source
  sum_of-delete_source m [] ssrc d e = cc
  sum_of-delete_source m (x ∷ ds) ssrc d e = elim (Bool-cases (x.ssrc == ssrc)) [
    | inl here ↦
        let found : x ≡ d =
          some-injective (sym (ap (λ b. if b then some x else find_source ops ds ssrc) here) ∙ e) in
        rw here (omega (arith, ap m found))
    | inr there ↦
        let later : find_source ops ds ssrc ≡ some d =
          sym (ap (λ b. if b then some x else find_source ops ds ssrc) there) ∙ e in
        rw there (omega (arith, sum_of-delete_source m ds ssrc d later))
  ]

  pub length-sum_of : (ds : List (SourceData Double)) → length ds ≡ sum_of (λ d. 1) ds
  length-sum_of [] = refl
  length-sum_of (d ∷ ds) = omega (arith, length-sum_of ds)
