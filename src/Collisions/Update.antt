-- ===== src/Collisions/Update.antt =====
-- The collision list as a map from addresses to times.
use jrtplib.Prelude.{
  Bool, true, false, not, List, [], ◌∷◌, ◌++◌, Option, none, some, if◌then◌else◌, ok, ◌≡◌, refl,
  sym, ◌∙◌, arith, Bool-cases, Option-cases, inl, inr,
}
use jrtplib.Source.Doubles.{DoubleOps}
use jrtplib.Collisions.{AddressAndTime, set_time, update_address, has_address}

module _ {Address Double : Type 0} (same : Address → Address → Bool) (ops : DoubleOps Double) where
  -- The time kept for an address: that of its first entry.
  abbrev pub time_of : List (AddressAndTime same ops) → Address → Option Double
  time_of [] a = none
  time_of (e ∷ rest) a = if same e.addr a then some e.recvtime else time_of rest a

  -- IsSameAddress is an equivalence.
  pub record SameIsEquivalence : Type 0 where
    pub reflexive : (a : Address) → same a a ≡ true
    pub alike : (a b c : Address) → same a b ≡ true → same a c ≡ same b c

  apart :
      SameIsEquivalence → (x a b : Address) → same x a ≡ false → same x b ≡ true → same a b ≡ false
  apart q x a b n y = elim (Bool-cases (same a b)) [
    | inr e ↦ e
    | inl e ↦
        let back : same b a ≡ true = sym (q.alike a b a e) ∙ q.reflexive a in
        let through : same x a ≡ true = q.alike x b a y ∙ back in cc
  ]

  abbrev with_entry :
      List (AddressAndTime same ops) → Address → Double → List (AddressAndTime same ops)
  with_entry l a t = l ++ (record { addr = a; recvtime = t } ∷ [])

  time_of-with_entry :
      SameIsEquivalence
      → (l : List (AddressAndTime same ops)) (a b : Address) (t : Double)
      → has_address same ops l a ≡ false
      → time_of (with_entry l a t) b ≡ (if same a b then some t else time_of l b)
  unfolding has_address
  time_of-with_entry q [] a b t h = refl
  time_of-with_entry q (e ∷ l) a b t h = elim (Bool-cases (same e.addr a)) [
    | inl y ↦ ground arith
    | inr n ↦
        let ih = time_of-with_entry q l a b t (ground arith) in
        elim (Bool-cases (same e.addr b)) [
          | inl y' ↦ rw (y', apart q e.addr a b n y') refl
          | inr n' ↦ rw n' ih
        ]
  ]

  time_of-set_time :
      SameIsEquivalence
      → (l l' : List (AddressAndTime same ops)) (a b : Address) (t : Double)
      → set_time same ops l a t ≡ some l'
      → (has_address same ops l a ≡ true)
        × (time_of l' b ≡ (if same a b then some t else time_of l b))
  unfolding set_time has_address
  time_of-set_time q [] l' a b t e = ground arith
  time_of-set_time q (x ∷ l) l' a b t e = elim (Bool-cases (same x.addr a)) [
    | inl y ↦
        let l'_is : record x { recvtime = t } ∷ l ≡ l' = ground arith in
        rw (y, ← l'_is, q.alike x.addr a b y) ground arith
    | inr n ↦ elim (Option-cases (set_time same ops l a t)) [
      | inl none' ↦ absurd (ground arith)
      | inr (l2, e2) ↦
          let (h, ih) = time_of-set_time q l l2 a b t e2 in
          let l'_is : x ∷ l2 ≡ l' = ground arith in
          (
            ground arith,
            rw (← l'_is, ih)
                (elim (Bool-cases (same x.addr b)) [
                  | inl y' ↦ rw (y', apart q x.addr a b n y') refl
                  | inr n' ↦ rw n' refl
                ]),
          )
    ]
  ]

  set_time-none :
      (l : List (AddressAndTime same ops)) (a : Address) (t : Double)
      → set_time same ops l a t ≡ none
      → has_address same ops l a ≡ false
  unfolding set_time has_address
  set_time-none [] a t e = refl
  set_time-none (x ∷ l) a t e = ground (arith, set_time-none l a t)

  -- Where IsSameAddress is an equivalence, a call of UpdateAddress that succeeds tells whether the
  -- address was missing, gives it the new time, and keeps the time of every other address.
  pub update_address_sets :
      SameIsEquivalence
      → (l l' : List (AddressAndTime same ops)) (a : Address) (t : Double) (copied created : Bool)
      → update_address same ops l (some a) t copied ≡ ok (l', created)
      → (created ≡ not (has_address same ops l a))
        × ((b : Address) → time_of l' b ≡ (if same a b then some t else time_of l b))
  unfolding update_address
  update_address_sets q l l' a t copied created e = elim (Option-cases (set_time same ops l a t)) [
    | inl none' ↦
        let missing = set_time-none l a t none' in
        let l'_is : with_entry l a t ≡ l' = ground arith in
        (ground arith, λ b. rw (← l'_is) (time_of-with_entry q l a b t missing))
    | inr (l2, e2) ↦
        let l'_is : l2 ≡ l' = ground arith in
        let present = (time_of-set_time q l l2 a a t e2).0 in
        (ground arith, λ b. rw (← l'_is) ((time_of-set_time q l l2 a b t e2).1))
  ]
