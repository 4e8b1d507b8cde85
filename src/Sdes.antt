-- ===== src/Sdes.antt =====
-- RTCPSDESInfo (src/rtcpsdesinfo.h, src/rtcpsdesinfo.cpp): the SDES items of a participant, with
-- private items compiled in. An item that is not set has no bytes. Whether RTPNew finds memory is
-- an argument of each call that allocates.
pub mod Private
use jrtplib.Prelude.{
  ℕ, suc, ◌+◌, ◌-◌, ◌<◌, Bool, true, false, ◌&&◌, ◌||◌, not, List, [], ◌∷◌, Option, none, some,
  length, get_or, set, take, ltb, leb, ◌==◌, if◌then◌else◌, Outcome, ok, err, fault, out_of_mem,
  sdes_lengthtoobig, sdes_maxprivitems, sdes_prefixnotfound,
}

-- memcmp of two buffers of the same length: whether it gives 0.
abbrev pub same_bytes : List ℕ → List ℕ → Bool
same_bytes [] [] = true
same_bytes [] (y ∷ ys) = false
same_bytes (x ∷ xs) [] = false
same_bytes (x ∷ xs) (y ∷ ys) = x == y && same_bytes xs ys

-- A prefix and its value, newest first.
abbrev pub PrivateItem : Type 0
PrivateItem = List ℕ × List ℕ

pub record SdesInfo : Type 0 where
  -- CNAME, name, email, phone, location, tool, note.
  pub nonprivateitems : List (List ℕ)
  pub privitems : List PrivateItem

unfoldable pub new_sdes_info : SdesInfo
new_sdes_info = record { nonprivateitems = [] ∷ [] ∷ [] ∷ [] ∷ [] ∷ [] ∷ [] ∷ []; privitems = [] }

abbrev pub Status : Type 0
Status = Outcome (Unit {0})

-- SetString: the new contents, at most 255 bytes, or no memory.
unfoldable pub set_string : Bool → List ℕ → Outcome (List ℕ)
set_string given s =
    if length s == 0 then ok [] else if given then ok (take 255 s) else err out_of_mem

unfoldable pub set_non_private_item : SdesInfo → ℕ → Bool → List ℕ → SdesInfo × Status
set_non_private_item info itemno given s =
    if ltb 255 (length s) then (info, err sdes_lengthtoobig) else elim (set_string given s) [
      | ok bytes ↦ (record info { nonprivateitems = set info.nonprivateitems itemno bytes }, ok tt)
      | err e ↦ (info, err e)
      | fault ↦ (info, fault)
    ]

unfoldable pub get_non_private_item : SdesInfo → ℕ → List ℕ
get_non_private_item info itemno = get_or info.nonprivateitems itemno []

-- The comparison of the search loops.
unfoldable pub prefix_matches : List ℕ → List ℕ → Bool
prefix_matches p q = length p == length q && (length p == 0 || same_bytes q p)

-- GetPrivateValue.
unfoldable pub get_private_value : List PrivateItem → List ℕ → Option (List ℕ)
get_private_value [] wanted = none
get_private_value ((p, v) ∷ items) wanted =
    let later = get_private_value items wanted in if prefix_matches p wanted then some v else later

-- The found entry with its value replaced; `none` if there is no such prefix.
unfoldable pub replace_value : List PrivateItem → List ℕ → List ℕ → Option (List PrivateItem)
replace_value [] wanted v = none
replace_value ((p, w) ∷ items) wanted v = elim (prefix_matches p wanted) [
  | true ↦ some ((p, v) ∷ items)
  | false ↦ elim (replace_value items wanted v) [ none ↦ none | some r ↦ some ((p, w) ∷ r) ]
]

-- A new entry at the front. Where the value finds no memory the entry stays, without a value.
unfoldable pub add_item :
    SdesInfo → (item prefix value : Bool) → List ℕ → List ℕ → SdesInfo × Status
add_item info item prefix value p v =
    if leb 256 (length info.privitems)
    then (info, err sdes_maxprivitems)
    else if not item
    then (info, err out_of_mem)
    else elim (set_string prefix p) [
      | err e ↦ (info, err e)
      | fault ↦ (info, fault)
      | ok p' ↦ elim (set_string value v) [
        | ok v' ↦ (record info { privitems = (p', v') ∷ info.privitems }, ok tt)
        | err e ↦ (record info { privitems = (p', []) ∷ info.privitems }, err e)
        | fault ↦ (record info { privitems = (p', []) ∷ info.privitems }, fault)
      ]
    ]

-- SetPrivateValue. The three flags say which of its allocations succeed: the item, its prefix, its
-- value.
unfoldable pub set_private_value :
    SdesInfo → (item prefix value : Bool) → List ℕ → List ℕ → SdesInfo × Status
set_private_value info item prefix value p v = elim (set_string value v) [
  | ok v' ↦ elim (replace_value info.privitems p v') [
    | some items ↦ (record info { privitems = items }, ok tt)
    | none ↦ add_item info item prefix value p v
  ]
  | err e ↦ elim (get_private_value info.privitems p) [
    | some _ ↦ (info, err e)
    | none ↦ add_item info item prefix value p v
  ]
  | fault ↦ (info, fault)
]

-- DeletePrivatePrefix.
unfoldable pub delete_item : List PrivateItem → List ℕ → Option (List PrivateItem)
delete_item [] wanted = none
delete_item ((p, w) ∷ items) wanted = elim (prefix_matches p wanted) [
  | true ↦ some items
  | false ↦ elim (delete_item items wanted) [ none ↦ none | some r ↦ some ((p, w) ∷ r) ]
]

unfoldable pub delete_private_prefix : SdesInfo → List ℕ → SdesInfo × Status
delete_private_prefix info p = elim (delete_item info.privitems p) [
  | none ↦ (info, err sdes_prefixnotfound)
  | some items ↦ (record info { privitems = items }, ok tt)
]

-- Clear drops the private items only.
unfoldable pub clear : SdesInfo → SdesInfo
clear info = record info { privitems = [] }

-- `curitem`, the iterator over the private items, is what is left to come: GotoFirstPrivateValue and
-- GetNextPrivateValue, with none at the end of the list.
abbrev pub goto_first_private_value : SdesInfo → List PrivateItem
goto_first_private_value info = info.privitems

unfoldable pub get_next_private_value : List PrivateItem → Option PrivateItem × List PrivateItem
get_next_private_value [] = (none, [])
get_next_private_value (item ∷ rest) = (some item, rest)
