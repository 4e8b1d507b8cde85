-- ===== src/Builder/CsrcArray.antt =====
-- The array of a builder that holds its CSRC list, when an entry is added or deleted.
use jrtplib.Prelude.{
  ℕ, zero, suc, ◌+◌, ◌-◌, ◌≤◌, ◌<◌, ◌≡◌, ◌≢◌, ◌⊎◌, ◌↔◌, inl, inr, ◌∙◌, not, ◌&&◌, List, none, some,
  length, length-set, get_or, set, get_or-set, ltb, ◌==◌, if◌then◌else◌, ok, arith,
}
use native.Mathlib.Decide.{dec_lt, ℕ_discrete}
use jrtplib.Builder.{PacketBuilder, find_csrc, add_csrc, delete_csrc}

pub find_csrc-some :
    (xs : List ℕ) (n c i j : ℕ)
    → find_csrc xs n c i ≡ some j
    → (i ≤ j) × (j < i + n) × (get_or xs j 0 ≡ c)
unfolding find_csrc
find_csrc-some xs zero c i j e = cc
find_csrc-some xs (suc n) c i j e = ground (arith, find_csrc-some xs n c (suc i) j)

find_csrc-none :
    (xs : List ℕ) (n c i j : ℕ) → find_csrc xs n c i ≡ none → i ≤ j → j < i + n → get_or xs j 0 ≢ c
unfolding find_csrc
find_csrc-none xs zero c i j e h k = absurd (omega arith)
find_csrc-none xs (suc n) c i j e h k = elim (dec_lt i j) [
  | yes later ↦ ground (arith, find_csrc-none xs n c (suc i) j)
  | no here ↦ let same : i ≡ j = omega arith in ground arith
]

module _ {Time : Type 0} where
  -- The number `c` stands in the used part of the array.
  abbrev pub Listed : PacketBuilder Time → ℕ → Type 0
  Listed b c = (i : ℕ) × (i < b.numcsrcs) × (get_or b.csrcs i 0 ≡ c)

  pub record ValidCsrcs (b : PacketBuilder Time) : Type 0 where
    pub room : length b.csrcs ≡ 15
    pub bounded : b.numcsrcs ≤ 15
    pub distinct :
        (i j : ℕ)
        → i < b.numcsrcs
        → j < b.numcsrcs
        → get_or b.csrcs i 0 ≡ get_or b.csrcs j 0
        → i ≡ j

  pub not-Listed :
      (b : PacketBuilder Time) (c : ℕ) → find_csrc b.csrcs b.numcsrcs c 0 ≡ none → ¬ Listed b c
  not-Listed b c e (i, h, q) =
      find_csrc-none b.csrcs b.numcsrcs c 0 i e (omega arith) (omega arith) q

  -- The object that a successful AddCSRC leaves.
  pub added : PacketBuilder Time → ℕ → PacketBuilder Time
  added b c = record b { csrcs = set b.csrcs b.numcsrcs c; numcsrcs = b.numcsrcs + 1 }

  pub add_csrc_ok :
      (b : PacketBuilder Time) (c : ℕ)
      → (add_csrc b c).1 ≡ ok tt
      → (b.numcsrcs < 15)
        × (find_csrc b.csrcs b.numcsrcs c 0 ≡ none)
        × ((add_csrc b c).0 ≡ added b c)
  unfolding add_csrc added
  add_csrc_ok b c e = ground arith

  -- The object that a successful DeleteCSRC leaves, the number being at index `i`.
  pub deleted : PacketBuilder Time → ℕ → PacketBuilder Time
  deleted b i = record b {
    csrcs =
        if ltb 0 (b.numcsrcs - 1) && not (b.numcsrcs - 1 == i)
        then set b.csrcs i (get_or b.csrcs (b.numcsrcs - 1) 0)
        else b.csrcs;
    numcsrcs = b.numcsrcs - 1;
  }

  pub delete_csrc_ok :
      (b : PacketBuilder Time) (c : ℕ)
      → (delete_csrc b c).1 ≡ ok tt
      → (i : ℕ) × (find_csrc b.csrcs b.numcsrcs c 0 ≡ some i) × ((delete_csrc b c).0 ≡ deleted b i)
  unfolding delete_csrc deleted
  delete_csrc_ok b c e = ground arith

  -- Entry `j` of the array after the two changes, `j` being in use.
  entry-added :
      (b : PacketBuilder Time) (c j : ℕ)
      → length b.csrcs ≡ 15
      → b.numcsrcs < 15
      → get_or (added b c).csrcs j 0 ≡ (if b.numcsrcs == j then c else get_or b.csrcs j 0)
  unfolding added
  entry-added b c j room few = get_or-set b.csrcs b.numcsrcs j c 0 (omega arith)

  entry-deleted :
      (b : PacketBuilder Time) (i j : ℕ)
      → length b.csrcs ≡ 15
      → b.numcsrcs ≤ 15
      → i < b.numcsrcs
      → j < b.numcsrcs - 1
      → get_or (deleted b i).csrcs j 0
        ≡ (if i == j then get_or b.csrcs (b.numcsrcs - 1) 0 else get_or b.csrcs j 0)
  unfolding deleted
  entry-deleted b i j room few h k =
      ground (arith, get_or-set b.csrcs i j (get_or b.csrcs (b.numcsrcs - 1) 0) 0 (omega arith))

  not_at :
      (b : PacketBuilder Time) (c : ℕ)
      → ¬ Listed b c
      → (i : ℕ) → i < b.numcsrcs
      → get_or b.csrcs i 0 ≢ c
  not_at b c absent i h q = absent (i, h, q)

  pub added-ValidCsrcs :
      (b : PacketBuilder Time) (c : ℕ)
      → ValidCsrcs b
      → b.numcsrcs < 15
      → ¬ Listed b c
      → ValidCsrcs (added b c)
  unfolding added
  added-ValidCsrcs b c v few fresh = record {
    room = length-set b.csrcs b.numcsrcs c ∙ v.room;
    bounded = omega arith;
    distinct = λ i j hi hj e. ground (
      arith,
      v.distinct i j,
      not_at b c fresh i,
      not_at b c fresh j,
      entry-added b c i v.room few,
      entry-added b c j v.room few,
    );
  }

  pub added-Listed :
      (b : PacketBuilder Time) (c d : ℕ)
      → ValidCsrcs b
      → b.numcsrcs < 15
      → Listed (added b c) d ↔ ((d ≡ c) ⊎ Listed b d)
  unfolding added
  added-Listed b c d v few = (
    λ (i, h, q). elim (ℕ_discrete b.numcsrcs i) [
      | yes last ↦ inl (ground (arith, entry-added b c i v.room few))
      | no old ↦ inr (i, omega arith, ground (arith, entry-added b c i v.room few))
    ],
    λ p. elim p [
      | inl e ↦ (b.numcsrcs, omega arith, ground (arith, entry-added b c b.numcsrcs v.room few))
      | inr (i, h, q) ↦ (i, omega arith, ground (arith, entry-added b c i v.room few))
    ],
  )

  pub deleted-ValidCsrcs :
      (b : PacketBuilder Time) (i : ℕ) → ValidCsrcs b → i < b.numcsrcs → ValidCsrcs (deleted b i)
  unfolding deleted
  deleted-ValidCsrcs b i v h = record {
    room = ground (arith, v.room, length-set b.csrcs i (get_or b.csrcs (b.numcsrcs - 1) 0));
    bounded = omega arith;
    distinct = λ j k hj hk e. ground (
      arith,
      v.distinct j k,
      v.distinct (b.numcsrcs - 1) k,
      v.distinct j (b.numcsrcs - 1),
      entry-deleted b i j v.room v.bounded h hj,
      entry-deleted b i k v.room v.bounded h hk,
    );
  }

  pub deleted-Listed :
      (b : PacketBuilder Time) (c d i : ℕ)
      → ValidCsrcs b
      → i < b.numcsrcs
      → get_or b.csrcs i 0 ≡ c
      → Listed (deleted b i) d ↔ (Listed b d × (d ≢ c))
  unfolding deleted
  deleted-Listed b c d i v h here = (
    λ (j, hj, q). (
      (
        if i == j then b.numcsrcs - 1 else j,
        ground arith,
        ground (arith, entry-deleted b i j v.room v.bounded h hj),
      ),
      λ e. ground (
        arith,
        entry-deleted b i j v.room v.bounded h hj,
        v.distinct (b.numcsrcs - 1) i,
        v.distinct j i,
      ),
    ),
    λ p.
        let (j, hj, q) = p.0 in
        let ne = p.1 in
        (
          if b.numcsrcs - 1 == j then i else j,
          ground arith,
          ground (
            arith,
            entry-deleted b i i v.room v.bounded h,
            entry-deleted b i j v.room v.bounded h,
          ),
        ),
  )
