-- ===== src/Tests/Sdes.antt =====
-- SDES items of a participant, and the list of colliding addresses.
use jrtplib.Prelude.{
  ℕ, ◌+◌, ◌-◌, ◌/◌, ◌≤◌, ◌≡◌, ◌≢◌, ◌↔◌, refl, not, Bool, true, false, List, [], ◌∷◌, length, some,
  ltb, ◌==◌, if◌then◌else◌, ok, arith, ==_refl,
}
use jrtplib.Sdes.{
  SdesInfo, set_string, prefix_matches, get_private_value, replace_value, set_private_value,
}
use jrtplib.Sdes.Private.{set_private_value_sets}
use jrtplib.Source.Doubles.{DoubleOps}
use jrtplib.Collisions.Timeouts.{Recent, has_address-timeout}
use jrtplib.Collisions.{timeout, AddressAndTime, set_time, update_address, has_address}
use jrtplib.Collisions.Update.{time_of, SameIsEquivalence, update_address_sets}

abbrev info : SdesInfo
info = record {
  nonprivateitems = [] ∷ [] ∷ [] ∷ [] ∷ [] ∷ [] ∷ [] ∷ [];
  privitems = ((1 ∷ []), (2 ∷ [])) ∷ ((3 ∷ []), (4 ∷ [])) ∷ [];
}

abbrev after_set : SdesInfo
after_set = record info { privitems = ((1 ∷ []), (2 ∷ [])) ∷ ((3 ∷ []), (5 ∷ [])) ∷ [] }

value_set : set_private_value info true true true (3 ∷ []) (5 ∷ []) ≡ (after_set, ok tt)
unfolding set_private_value set_string replace_value prefix_matches
value_set = refl

value_set_ok : (set_private_value info true true true (3 ∷ []) (5 ∷ [])).1 ≡ ok tt
unfolding set_private_value set_string replace_value prefix_matches
value_set_ok = refl

abbrev other : List ℕ
other = 1 ∷ []

set_private_value_sets_example :
    let info' = (set_private_value info true true true (3 ∷ []) (5 ∷ [])).0 in
    (get_private_value info'.privitems (3 ∷ []) ≡ some (5 ∷ []))
    × (other ≢ (3 ∷ [])
        → get_private_value info'.privitems other ≡ get_private_value info.privitems other)
    × (length info'.privitems ≤ 256)
set_private_value_sets_example =
    set_private_value_sets info true true true (3 ∷ []) (5 ∷ []) other (omega arith) (omega arith)
      (omega arith) value_set_ok

-- Addresses that are numbers, and times in whole seconds.
abbrev ops : DoubleOps ℕ
ops = record {
  of_uint32 = λ n. n;
  to_uint32 = λ n. n;
  neg = λ n. 0;
  add = λ m n. m + n;
  sub = λ m n. m - n;
  div = λ m n. m / n;
  lt = ltb;
}

abbrev same_number : ℕ → ℕ → Bool
same_number m n = m == n

same_number-SameIsEquivalence : SameIsEquivalence same_number ops
same_number-SameIsEquivalence = record { reflexive = ==_refl; alike = λ a b c e. ground arith }

abbrev addresses : List (AddressAndTime same_number ops)
addresses = record { addr = 10; recvtime = 1 } ∷ record { addr = 20; recvtime = 2 } ∷ []

abbrev addresses_later : List (AddressAndTime same_number ops)
addresses_later = record { addr = 10; recvtime = 1 } ∷ record { addr = 20; recvtime = 7 } ∷ []

address_20_updated :
    update_address same_number ops addresses (some 20) 7 true ≡ ok (addresses_later, false)
unfolding update_address set_time
address_20_updated = refl

update_address_sets_example :
    (false ≡ not (has_address same_number ops addresses 20))
    × ((b : ℕ)
        → time_of same_number ops addresses_later b
          ≡ (if same_number 20 b then some 7 else time_of same_number ops addresses b))
update_address_sets_example =
    update_address_sets same_number ops same_number-SameIsEquivalence addresses addresses_later 20 7
      true false address_20_updated

has_address-timeout_example :
    has_address same_number ops (timeout same_number ops addresses_later 10 5) 20 ≡ true
    ↔ Recent same_number ops addresses_later 20 5
has_address-timeout_example = has_address-timeout same_number ops addresses_later 20 10 5
