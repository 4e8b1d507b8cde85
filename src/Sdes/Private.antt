-- ===== src/Sdes/Private.antt =====
-- Private SDES items: a bounded dictionary from prefixes to values.
use jrtplib.Prelude.{
  ℕ, ◌≤◌, ◌<◌, ◌≡◌, ◌≢◌, ◌↔◌, ◌⊎◌, inl, inr, refl, Bool, true, false, List, [], ◌∷◌, none, some,
  length, take_all, if◌then◌else◌, ok, err, out_of_mem, arith, Bool-cases, Option-cases,
}
use jrtplib.Sdes.{
  SdesInfo, PrivateItem, same_bytes, set_string, prefix_matches, get_private_value, replace_value,
  add_item, set_private_value,
}

same_bytes_refl : (xs : List ℕ) → same_bytes xs xs ≡ true
same_bytes_refl [] = refl
same_bytes_refl (x ∷ xs) = ground (arith, same_bytes_refl xs)

same_bytes_eq : (xs ys : List ℕ) → same_bytes xs ys ≡ true → xs ≡ ys
same_bytes_eq [] [] h = refl
same_bytes_eq [] (y ∷ ys) h = cc
same_bytes_eq (x ∷ xs) [] h = cc
same_bytes_eq (x ∷ xs) (y ∷ ys) h = ground (arith, same_bytes_eq xs ys)

prefix_matches_refl : (p : List ℕ) → prefix_matches p p ≡ true
unfolding prefix_matches
prefix_matches_refl p = ground (arith, same_bytes_refl p)

prefix_matches_eq : (p q : List ℕ) → prefix_matches p q ≡ true → p ≡ q
unfolding prefix_matches
prefix_matches_eq [] [] h = refl
prefix_matches_eq [] (y ∷ q) h = ground arith
prefix_matches_eq (x ∷ p) [] h = ground arith
prefix_matches_eq (x ∷ p) (y ∷ q) h = ground (arith, same_bytes_eq (y ∷ q) (x ∷ p))

-- Two prefixes that the same prefix matches.
prefix_matches_iff : (p q : List ℕ) → (prefix_matches p q ≡ true) ↔ (p ≡ q)
prefix_matches_iff p q = (prefix_matches_eq p q, λ e. rw e (prefix_matches_refl q))

get-replace_value :
    (items : List PrivateItem) (p v q : List ℕ) (items' : List PrivateItem)
    → replace_value items p v ≡ some items'
    → get_private_value items' q
      ≡ (if prefix_matches p q then some v else get_private_value items q)
unfolding replace_value get_private_value
get-replace_value [] p v q items' e = cc
get-replace_value ((r, w) ∷ items) p v q items' e = elim (Bool-cases (prefix_matches r p)) [
  | inl same ↦ ground (arith, prefix_matches_eq r p same)
  | inr other ↦ elim (Option-cases (replace_value items p v)) [
    | inl missing ↦ ground arith
    | inr (rest, found) ↦ ground (
      arith,
      get-replace_value items p v q rest found,
      prefix_matches_eq r q,
      prefix_matches_eq p q,
      prefix_matches_refl q,
    )
  ]
]

missing-replace_value :
    (items : List PrivateItem) (p v : List ℕ)
    → replace_value items p v ≡ none
    → get_private_value items p ≡ none
unfolding replace_value get_private_value
missing-replace_value [] p v e = refl
missing-replace_value ((r, w) ∷ items) p v e = ground (arith, missing-replace_value items p v)

length-replace_value :
    (items : List PrivateItem) (p v : List ℕ) (items' : List PrivateItem)
    → replace_value items p v ≡ some items'
    → length items' ≡ length items
unfolding replace_value
length-replace_value [] p v items' e = cc
length-replace_value ((r, w) ∷ items) p v items' e = elim (Option-cases (replace_value items p v)) [
  | inl missing ↦ ground arith
  | inr (rest, found) ↦ ground (arith, length-replace_value items p v rest found)
]

set_string_cases :
    (given : Bool) (s : List ℕ)
    → length s ≤ 255
    → (set_string given s ≡ ok s) ⊎ (set_string given s ≡ err out_of_mem)
unfolding set_string
set_string_cases given [] h = inl refl
set_string_cases true (x ∷ s) h = inl (ground (arith, take_all 255 (x ∷ s) h))
set_string_cases false (x ∷ s) h = inr (ground arith)

module _ (info : SdesInfo) (item prefix value : Bool) (p v : List ℕ) where
  -- The two ways in which a call succeeds: the entry was there, or it is added at the front.
  set_ok :
      length p ≤ 255
      → length v ≤ 255
      → (set_private_value info item prefix value p v).1 ≡ ok tt
      → ((items : List PrivateItem) × (replace_value info.privitems p v ≡ some items)
          × ((set_private_value info item prefix value p v).0 ≡ record info { privitems = items }))
        ⊎ ((length info.privitems < 256)
            × ((set_private_value info item prefix value p v).0
                ≡ record info { privitems = (p, v) ∷ info.privitems }))
  unfolding set_private_value add_item
  set_ok hp hv e = elim (set_string_cases value v hv) [
    | inr lost ↦ absurd (elim (Option-cases (get_private_value info.privitems p)) [
      | inl missing ↦ ground arith
      | inr (w, found) ↦ ground arith
    ])
    | inl kept ↦ elim (Option-cases (replace_value info.privitems p v)) [
      | inr (items, found) ↦ inl (items, found, ground arith)
      | inl missing ↦ elim (set_string_cases prefix p hp) [
        | inl named ↦ inr (ground arith, ground arith)
        | inr lost ↦ absurd (ground arith)
      ]
    ]
  ]

  -- On at most 256 items, a successful SetPrivateValue of a prefix and a value of at most 255 bytes
  -- each makes the value the one found under that prefix, and changes what is found under no other.
  -- The number of items stays within 256.
  pub set_private_value_sets :
      (q : List ℕ)
      → length p ≤ 255
      → length v ≤ 255
      → length info.privitems ≤ 256
      → (set_private_value info item prefix value p v).1 ≡ ok tt
      → let info' = (set_private_value info item prefix value p v).0 in
        (get_private_value info'.privitems p ≡ some v)
        × (q ≢ p → get_private_value info'.privitems q ≡ get_private_value info.privitems q)
        × (length info'.privitems ≤ 256)
  unfolding get_private_value
  set_private_value_sets q hp hv hb e = elim (set_ok hp hv e) [
    | inl (items, found, eq) ↦ rw eq (
      ground (arith, get-replace_value info.privitems p v p items found, prefix_matches_refl p),
      λ ne.
          ground (arith, get-replace_value info.privitems p v q items found, prefix_matches_eq p q),
      omega (arith, length-replace_value info.privitems p v items found),
    )
    | inr (few, eq) ↦ rw eq (
      ground (arith, prefix_matches_refl p),
      λ ne. ground (arith, prefix_matches_eq p q),
      omega arith,
    )
  ]
