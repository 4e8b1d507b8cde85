-- ===== src/Collisions/Timeouts.antt =====
-- Which addresses a timeout leaves in the collision list.
use jrtplib.Prelude.{Bool, true, false, List, [], ◌∷◌, ◌≡◌, ◌↔◌, arith, Bool-cases, inl, inr, ◌⊎◌}
use jrtplib.Source.Doubles.{DoubleOps}
use jrtplib.Collisions.{AddressAndTime, has_address, drop_before, timeout}

module _ {Address Double : Type 0} (same : Address → Address → Bool) (ops : DoubleOps Double) where
  -- An entry of the list has this address, and a time that is not before the check time.
  abbrev pub Recent : List (AddressAndTime same ops) → Address → Double → Type 0
  Recent [] a checktime = ⊥
  Recent (e ∷ rest) a checktime =
      ((same e.addr a ≡ true) × (ops.lt e.recvtime checktime ≡ false)) ⊎ Recent rest a checktime

  has_address-drop_before :
      (l : List (AddressAndTime same ops)) (a : Address) (checktime : Double)
      → has_address same ops (drop_before same ops l checktime) a ≡ true ↔ Recent l a checktime
  unfolding has_address drop_before
  has_address-drop_before [] a checktime = (λ e. cc, λ r. absurd r)
  has_address-drop_before (e ∷ l) a checktime =
      let (there, back) = has_address-drop_before l a checktime in
      elim (Bool-cases (ops.lt e.recvtime checktime)) [
        | inl old ↦ (
          λ h. inr (there (ground arith)),
          λ r. elim r [ inl x ↦ absurd (ground arith) | inr y ↦ (let b = back y in ground arith) ],
        )
        | inr recent ↦ elim (Bool-cases (same e.addr a)) [
          | inl y ↦ (λ h. inl (y, recent), λ r. ground arith)
          | inr n ↦ (
            λ h. inr (there (ground arith)),
            λ r. elim r [
              | inl x ↦ absurd (ground arith)
              | inr y ↦ (let b = back y in ground arith)
            ],
          )
        ]
      ]

  -- After Timeout the list has an address exactly if it had an entry for it whose time is not
  -- before the current time less the delay.
  pub has_address-timeout :
      (l : List (AddressAndTime same ops)) (a : Address) (currenttime timeoutdelay : Double)
      → has_address same ops (timeout same ops l currenttime timeoutdelay) a ≡ true
        ↔ Recent l a (ops.sub currenttime timeoutdelay)
  unfolding timeout
  has_address-timeout l a currenttime timeoutdelay =
      has_address-drop_before l a (ops.sub currenttime timeoutdelay)
