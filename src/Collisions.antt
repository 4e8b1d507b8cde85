-- ===== src/Collisions.antt =====
-- RTPCollisionList (src/rtpcollisionlist.h, src/rtpcollisionlist.cpp). The type of addresses with
-- IsSameAddress is a parameter (rtpaddress.h declares it, each transmitter defines it); an object
-- and the copy that CreateCopy makes of it are one value.
pub mod Update
pub mod Timeouts
use jrtplib.Prelude.{
  ℕ, Bool, true, false, List, [], ◌∷◌, ◌++◌, Option, none, some, if◌then◌else◌, Outcome, ok, err,
  fault, collisionlist_badaddress, out_of_mem,
}
use jrtplib.Source.Doubles.{DoubleOps}

module _ {Address Double : Type 0} (same : Address → Address → Bool) (ops : DoubleOps Double) where
  pub record AddressAndTime : Type 0 where
    pub addr : Address
    pub recvtime : Double

  unfoldable pub clear : List AddressAndTime → List AddressAndTime
  clear l = []

  -- The entry of the address gets the time: the new list, `none` if there is no entry.
  unfoldable pub set_time : List AddressAndTime → Address → Double → Option (List AddressAndTime)
  set_time [] a t = none
  set_time (e ∷ rest) a t =
      let later = set_time rest a t in
      if same e.addr a
      then some (record e { recvtime = t } ∷ rest)
      else elim later [ none ↦ none | some rest' ↦ some (e ∷ rest') ]

  -- UpdateAddress, for a null pointer or an address: the list and `created`. `copied` tells
  -- whether CreateCopy finds memory.
  unfoldable pub update_address :
      List AddressAndTime
      → Option Address
      → Double
      → (copied : Bool) → Outcome (List AddressAndTime × Bool)
  unfolding set_time
  update_address l none t copied = err collisionlist_badaddress
  update_address l (some a) t copied = elim (set_time l a t) [
    | some l' ↦ ok (l', false)
    | none ↦
        if copied then ok (l ++ (record { addr = a; recvtime = t } ∷ []), true) else err out_of_mem
  ]

  unfoldable pub has_address : List AddressAndTime → Address → Bool
  has_address [] a = false
  has_address (e ∷ rest) a = let later = has_address rest a in if same e.addr a then true else later

  -- The loop of Timeout, for a check time.
  unfoldable pub drop_before : List AddressAndTime → Double → List AddressAndTime
  drop_before [] checktime = []
  drop_before (e ∷ rest) checktime =
      let rest' = drop_before rest checktime in
      if ops.lt e.recvtime checktime then rest' else e ∷ rest'

  unfoldable pub timeout :
      List AddressAndTime → (currenttime timeoutdelay : Double) → List AddressAndTime
  unfolding drop_before
  timeout l currenttime timeoutdelay = drop_before l (ops.sub currenttime timeoutdelay)
