-- ===== src/Rtcp/Sdes/Grammar.antt =====
-- The chunks that make an SDES packet (RFC 3550, section 6.5), and the constructor's check of them.
use jrtplib.Prelude.{
  ℕ, zero, suc, ◌+◌, ◌-◌, ◌*◌, ◌/◌, ◌≤◌, ◌<◌, ◌≡◌, ◌≢◌, ◌⊎◌, inl, inr, refl, sym, subst, ◌∙◌, true,
  false, List, [], ◌∷◌, Option, none, some, length, ltb, arith, Bool-cases, ok, ok-injective,
}
use jrtplib.Bytes.{byte_at, byte_at-lt}
use jrtplib.Rtcp.Sdes.{ItemStep, invalid, list_end, item, item_step, close_chunk, walk_items}

-- From `at` on stand items with these numbers of data bytes, and then, at `last`, a zero byte.
abbrev pub Items : List ℕ → ℕ → List ℕ → ℕ → Type 0
Items bytes at [] last = (byte_at bytes at ≡ ok 0) × (at ≡ last)
Items bytes at (n ∷ ns) last =
    (id : ℕ) × (byte_at bytes at ≡ ok (suc id))
    × (byte_at bytes (at + 1) ≡ ok n)
    × Items bytes (at + 2 + n) ns last

-- The next multiple of four.
abbrev pub round4 : ℕ → ℕ
round4 n = (n + 3) / 4 * 4

-- From `at` to `end'` stand chunks with these items: an SSRC, the items, a zero byte, and bytes up to the next
-- multiple of four.
abbrev pub Chunks : List ℕ → ℕ → List (List ℕ) → ℕ → Type 0
Chunks bytes at [] end' = at ≡ end'
Chunks bytes at (ns ∷ rest) end' =
    (size : ℕ) × Items bytes (at + 4) ns (at + size)
    × (at + round4 (size + 1) ≤ end')
    × Chunks bytes (at + round4 (size + 1)) rest end'

-- A walk over items that found the end of the list.
pub record Walked (bytes : List ℕ) (chunk off len off' len' : ℕ) : Type 0 where
  pub ns : List ℕ
  pub size : ℕ
  pub items : Items bytes (chunk + off) ns (chunk + size)
  pub reached : off' ≡ round4 (size + 1)
  pub left : off' + len' ≡ off + len

-- What a step of the loop over the items tells.
StepMeans : List ℕ → ℕ → ℕ → ItemStep → Type 0
StepMeans bytes at len invalid =
    (len ≡ 0)
    ⊎ ((id : ℕ) × (n : ℕ) × (byte_at bytes at ≡ ok (suc id))
        × ((len ≡ 1) ⊎ ((byte_at bytes (at + 1) ≡ ok n) × (len < 2 + n))))
StepMeans bytes at len list_end = (byte_at bytes at ≡ ok 0) × (1 ≤ len)
StepMeans bytes at len (item n) =
    (id : ℕ) × (byte_at bytes at ≡ ok (suc id)) × (byte_at bytes (at + 1) ≡ ok n) × (2 + n ≤ len)

item_step-StepMeans :
    (bytes : List ℕ) (at len : ℕ)
    → at + len ≤ length bytes
    → (s : ItemStep) × (item_step bytes at len ≡ ok s) × StepMeans bytes at len s
item_step-StepMeans bytes at zero h =
    (invalid, unfold item_step in refl, unfold StepMeans in inl refl)
item_step-StepMeans bytes at (suc zero) h = let (b, e) = byte_at-lt bytes at (omega arith) in go b e
  where
    go :
        (b : ℕ)
        → byte_at bytes at ≡ ok b
        → (s : ItemStep) × (item_step bytes at 1 ≡ ok s) × StepMeans bytes at 1 s
    go zero e = (list_end, unfold item_step in rw e refl, unfold StepMeans in (e, omega arith))
    go (suc id) e =
        (invalid, unfold item_step in ground arith, unfold StepMeans in inr (id, 0, e, inl refl))
item_step-StepMeans bytes at (suc (suc more)) h =
    let (b, e) = byte_at-lt bytes at (omega arith) in
    let (n, en) = byte_at-lt bytes (at + 1) (omega arith) in go b e n en (Bool-cases (ltb more n))
  where
    go :
        (b : ℕ)
        → byte_at bytes at ≡ ok b
        → (n : ℕ) → byte_at bytes (at + 1) ≡ ok n
        → (ltb more n ≡ true) ⊎ (ltb more n ≡ false)
        → (s : ItemStep) × (item_step bytes at (suc (suc more)) ≡ ok s)
          × StepMeans bytes at (suc (suc more)) s
    go zero e n en c =
        (list_end, unfold item_step in ground arith, unfold StepMeans in (e, omega arith))
    go (suc id) e n en (inl c) = (
      invalid,
      unfold item_step in ground arith,
      unfold StepMeans in inr (id, n, e, inr (en, ground arith)),
    )
    go (suc id) e n en (inr c) =
        (item n, unfold item_step in ground arith, unfold StepMeans in (id, e, en, ground arith))

-- What a walk over the items of a chunk tells.
unfoldable pub WalkMeans : List ℕ → ℕ → ℕ → ℕ → Option (ℕ × ℕ) → Type 0
WalkMeans bytes chunk off len none =
    (ns : List ℕ) (size : ℕ)
    → Items bytes (chunk + off) ns (chunk + size)
    → off + len < round4 (size + 1)
WalkMeans bytes chunk off len (some (off', len')) = Walked bytes chunk off len off' len'

pub Items-end :
    (bytes : List ℕ) (at : ℕ) (ns : List ℕ) (last : ℕ) → Items bytes at ns last → at ≤ last
Items-end bytes at [] last i = omega (arith, i.1)
Items-end bytes at (n ∷ ns) last (id, e, en, i) =
    omega (arith, Items-end bytes (at + 2 + n) ns last i)

close_chunk-cases :
    (off len : ℕ)
    → 1 ≤ len
    → ((close_chunk off len ≡ some (round4 (off + 1), off + len - round4 (off + 1)))
        × (round4 (off + 1) ≤ off + len))
      ⊎ ((close_chunk off len ≡ none) × (off + len < round4 (off + 1)))
unfolding close_chunk
close_chunk-cases off len h = ground arith

close_chunk-WalkMeans :
    (bytes : List ℕ) (chunk off len : ℕ)
    → byte_at bytes (chunk + off) ≡ ok 0
    → 1 ≤ len
    → WalkMeans bytes chunk off len (close_chunk off len)
unfolding WalkMeans
close_chunk-WalkMeans bytes chunk off len e h = elim (close_chunk-cases off len h) [
  | inl (c, fits) ↦
      rw (c, WalkMeans)
        (record { ns = []; size = off; items = (e, refl); reached = refl; left = omega arith })
  | inr (c, short) ↦ rw (c, WalkMeans) (λ ns size i. omega (arith, Items-end bytes _ ns _ i))
]

pub differ : (id : ℕ) → ok (suc id) ≢ ok 0
differ id e = absurd (omega (arith, ok-injective e))

walk_item-WalkMeans :
    (bytes : List ℕ) (chunk off len id n : ℕ) (r : Option (ℕ × ℕ))
    → byte_at bytes (chunk + off) ≡ ok (suc id)
    → byte_at bytes (chunk + off + 1) ≡ ok n
    → 2 + n ≤ len
    → WalkMeans bytes chunk (off + 2 + n) (len - 2 - n) r
    → WalkMeans bytes chunk off len r
unfolding WalkMeans
walk_item-WalkMeans bytes chunk off len id n none e en h m = λ ns size i. go ns size i
  where
    go :
        (ns : List ℕ) (size : ℕ)
        → Items bytes (chunk + off) ns (chunk + size)
        → off + len < round4 (size + 1)
    go [] size i = absurd (differ id (sym e ∙ i.0))
    go (n' ∷ ns) size (id', e', en', i) =
        let same : n' ≡ n = ok-injective (sym en' ∙ en) in
        omega (arith, m ns size (subst (λ k. Items bytes k ns (chunk + size)) (omega arith) i))
walk_item-WalkMeans bytes chunk off len id n (some (off', len')) e en h m = record {
  ns = n ∷ m.ns;
  size = m.size;
  items = (id, e, en, subst (λ k. Items bytes k m.ns (chunk + m.size)) (omega arith) m.items);
  reached = m.reached;
  left = omega (arith, m.left);
}

walk_invalid-WalkMeans :
    (bytes : List ℕ) (chunk off len : ℕ)
    → StepMeans bytes (chunk + off) len invalid
    → WalkMeans bytes chunk off len none
unfolding WalkMeans StepMeans
walk_invalid-WalkMeans bytes chunk off len (inl m) ns size i =
    omega (arith, Items-end bytes _ ns _ i)
walk_invalid-WalkMeans bytes chunk off len (inr (id, n, e, m)) [] size i =
    absurd (differ id (sym e ∙ i.0))
walk_invalid-WalkMeans bytes chunk off len (inr (id', n', e', inl m)) (n ∷ ns) size (id, e, en, i) =
    omega (arith, Items-end bytes _ ns _ i)
walk_invalid-WalkMeans bytes chunk off len (inr (id', n', e', inr (en', m))) (n ∷ ns) size
      (id, e, en, i) =
    omega (arith, Items-end bytes _ ns _ i, ok-injective (sym en' ∙ en))

pub walk_items-WalkMeans :
    (fuel : ℕ) (bytes : List ℕ) (chunk off len : ℕ)
    → chunk + off + len ≤ length bytes
    → len < fuel
    → (r : Option (ℕ × ℕ)) × (walk_items fuel bytes chunk off len ≡ ok r)
      × WalkMeans bytes chunk off len r
unfolding walk_items StepMeans
walk_items-WalkMeans zero bytes chunk off len h f = absurd (omega arith)
walk_items-WalkMeans (suc fuel) bytes chunk off len h f =
    let (s, e, m) = item_step-StepMeans bytes (chunk + off) len h in
    go s e m (λ n lt.
      walk_items-WalkMeans fuel bytes chunk (off + 2 + n) (len - 2 - n) (omega arith) (omega arith))
  where
    go :
        (s : ItemStep)
        → item_step bytes (chunk + off) len ≡ ok s
        → StepMeans bytes (chunk + off) len s
        → ((n : ℕ)
            → 2 + n ≤ len
            → (r : Option (ℕ × ℕ)) × (walk_items fuel bytes chunk (off + 2 + n) (len - 2 - n)
                ≡ ok r)
              × WalkMeans bytes chunk (off + 2 + n) (len - 2 - n) r)
        → (r : Option (ℕ × ℕ)) × (walk_items (suc fuel) bytes chunk off len ≡ ok r)
          × WalkMeans bytes chunk off len r
    go invalid e m ih = (none, rw e refl, walk_invalid-WalkMeans bytes chunk off len m)
    go list_end e m ih =
        (close_chunk off len, rw e refl, close_chunk-WalkMeans bytes chunk off len m.0 m.1)
    go (item n) e m ih =
        let (id, eb, en, lt) = m in
        let (r, er, mr) = ih n lt in
        (r, rw e er, walk_item-WalkMeans bytes chunk off len id n r eb en lt mr)

-- The items at a place are determined by the bytes.
pub Items-unique :
    (bytes : List ℕ) (at : ℕ) (ns ns' : List ℕ) (last last' : ℕ)
    → Items bytes at ns last
    → Items bytes at ns' last'
    → last ≡ last'
Items-unique bytes at [] [] last last' i j = omega (arith, i.1, j.1)
Items-unique bytes at [] (n ∷ ns') last last' i (id, e, en, j) = absurd (differ id (sym e ∙ i.0))
Items-unique bytes at (n ∷ ns) [] last last' (id, e, en, i) j = absurd (differ id (sym e ∙ j.0))
Items-unique bytes at (n ∷ ns) (n' ∷ ns') last last' (id, e, en, i) (id', e', en', j) =
    Items-unique bytes (at + 2 + n) ns ns' last last' i
      (subst (λ k. Items bytes (at + 2 + k) ns' last') (ok-injective (sym en' ∙ en)) j)
