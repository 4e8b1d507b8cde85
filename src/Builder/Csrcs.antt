-- ===== src/Builder/Csrcs.antt =====
-- The CSRC list of a builder: a set of at most 15 numbers.
use jrtplib.Prelude.{ℕ, ◌<◌, ◌≡◌, ◌≢◌, ◌⊎◌, ◌↔◌, inl, inr, true, some, ok, arith, Option-cases}
use jrtplib.Builder.{PacketBuilder, find_csrc, add_csrc, delete_csrc}
use jrtplib.Builder.CsrcArray.{
  find_csrc-some, Listed, ValidCsrcs, not-Listed, add_csrc_ok, delete_csrc_ok, added-ValidCsrcs,
  added-Listed, deleted-ValidCsrcs, deleted-Listed,
}

module _ {Time : Type 0} where
  -- A successful AddCSRC keeps the list a set of at most 15 numbers; the number was not in the
  -- list, and the new list holds it and what the old one held.
  pub add_csrc_adds :
      (b : PacketBuilder Time) (c : ℕ)
      → ValidCsrcs b
      → (add_csrc b c).1 ≡ ok tt
      → ValidCsrcs (add_csrc b c).0
        × (¬ Listed b c)
        × ((d : ℕ) → Listed (add_csrc b c).0 d ↔ ((d ≡ c) ⊎ Listed b d))
  add_csrc_adds b c v e =
      let (few, missing, eq) = add_csrc_ok b c e in
      let fresh : ¬ Listed b c = not-Listed b c missing in
      rw eq (added-ValidCsrcs b c v few fresh, fresh, λ d. added-Listed b c d v few)

  -- A successful DeleteCSRC keeps the list a set; the number was in the list, and the new list
  -- holds what the old one held but that number.
  pub delete_csrc_deletes :
      (b : PacketBuilder Time) (c : ℕ)
      → ValidCsrcs b
      → (delete_csrc b c).1 ≡ ok tt
      → ValidCsrcs (delete_csrc b c).0
        × Listed b c
        × ((d : ℕ) → Listed (delete_csrc b c).0 d ↔ (Listed b d × (d ≢ c)))
  delete_csrc_deletes b c v e =
      let (i, found, eq) = delete_csrc_ok b c e in
      let (_, h, here) = find_csrc-some b.csrcs b.numcsrcs c 0 i found in
      let inside : i < b.numcsrcs = omega arith in
      rw eq (
        deleted-ValidCsrcs b i v inside,
        (i, inside, here),
        λ d. deleted-Listed b c d i v inside here,
      )

  found-Listed :
      (b : PacketBuilder Time) (c i : ℕ) → find_csrc b.csrcs b.numcsrcs c 0 ≡ some i → Listed b c
  found-Listed b c i e =
      let (_, h, here) = find_csrc-some b.csrcs b.numcsrcs c 0 i e in (i, omega arith, here)

  -- On an initialized builder AddCSRC succeeds exactly if the list has fewer than 15 entries and
  -- not this one, and DeleteCSRC exactly if the list has the number; a call that fails changes
  -- nothing.
  pub csrc_calls_succeed :
      (b : PacketBuilder Time) (c : ℕ)
      → b.init ≡ true
      → (((add_csrc b c).1 ≡ ok tt) ↔ ((b.numcsrcs < 15) × (¬ Listed b c)))
        × (((delete_csrc b c).1 ≡ ok tt) ↔ Listed b c)
        × ((add_csrc b c).1 ≢ ok tt → (add_csrc b c).0 ≡ b)
        × ((delete_csrc b c).1 ≢ ok tt → (delete_csrc b c).0 ≡ b)
  unfolding add_csrc delete_csrc
  csrc_calls_succeed b c i = elim (Option-cases (find_csrc b.csrcs b.numcsrcs c 0)) [
    | inl missing ↦
        let absent = not-Listed b c missing in
        (
          (λ e. (ground arith, absent), λ p. let few = p.0 in ground arith),
          (λ e. cc (rw (i, missing) at e), λ l. absurd (absent l)),
          λ ne. ground arith,
          λ ne. ground arith,
        )
    | inr (at, found) ↦
        let listed = found-Listed b c at found in
        (
          (λ e. absurd (ground arith), λ p. absurd (p.1 listed)),
          (λ e. listed, λ l. ground arith),
          λ ne. ground arith,
          λ ne. ground arith,
        )
  ]
