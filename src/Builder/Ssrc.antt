-- ===== src/Builder/Ssrc.antt =====
-- The SSRC that CreateNewSSRC draws when it asks the table of sources.
use jrtplib.Prelude.{
  ℕ, Bool, true, false, List, [], ◌∷◌, ◌++◌, none, some, ◌≡◌, ◌↔◌, refl, ap, arith, Bool-cases,
  Option-cases, inl, inr, All,
}
use jrtplib.Builder.{PacketBuilder, draw_ssrc, create_new_ssrc, create_new_ssrc_for}

-- The draws before this one are all in use, and it is free.
abbrev pub FirstFree : (ℕ → Bool) → List ℕ → ℕ → Type 0
FirstFree got_entry draws s =
    (taken : List ℕ) × (later : List ℕ) × (draws ≡ taken ++ (s ∷ later))
    × All (λ r. got_entry r ≡ true) taken
    × (got_entry s ≡ false)

draw_ssrc-FirstFree :
    (got_entry : ℕ → Bool) (draws : List ℕ) (s : ℕ)
    → draw_ssrc got_entry draws ≡ some s
    → FirstFree got_entry draws s
unfolding draw_ssrc
draw_ssrc-FirstFree got_entry [] s e = cc
draw_ssrc-FirstFree got_entry (r ∷ rs) s e = elim (Bool-cases (got_entry r)) [
  | inl used ↦
      let (taken, later, split, all, free) = draw_ssrc-FirstFree got_entry rs s (ground arith) in
      (r ∷ taken, later, ap (◌∷◌ r) split, (used, all), free)
  | inr free ↦ let same : r ≡ s = ground arith in ([], rs, ap (λ k. k ∷ rs) same, tt, ground arith)
]

draw_ssrc-none :
    (got_entry : ℕ → Bool) (draws : List ℕ)
    → draw_ssrc got_entry draws ≡ none ↔ All (λ r. got_entry r ≡ true) draws
unfolding draw_ssrc
draw_ssrc-none got_entry [] = (λ e. tt, λ a. refl)
draw_ssrc-none got_entry (r ∷ rs) =
    let (there, back) = draw_ssrc-none got_entry rs in
    elim (Bool-cases (got_entry r)) [
      | inl used ↦ (λ e. (used, there (ground arith)), λ a. (let b = back a.1 in ground arith))
      | inr free ↦ (λ e. absurd (ground arith), λ a. absurd (ground (arith, a.0)))
    ]

module _ {Time : Type 0} where
  -- CreateNewSSRC with a table of sources goes on drawing exactly while the drawn numbers are in
  -- use. It takes the first that is free, and counts packets and bytes from 0 again.
  pub create_new_ssrc_for-FirstFree :
      (got_entry : ℕ → Bool) (b : PacketBuilder Time) (draws : List ℕ) (t s : ℕ)
      → (create_new_ssrc_for got_entry b draws t s ≡ none ↔ All (λ r. got_entry r ≡ true) draws)
        × ((b' : PacketBuilder Time)
            → create_new_ssrc_for got_entry b draws t s ≡ some b'
            → FirstFree got_entry draws b'.ssrc × (b'.numpackets ≡ 0) × (b'.numpayloadbytes ≡ 0))
  unfolding create_new_ssrc_for create_new_ssrc
  create_new_ssrc_for-FirstFree got_entry b draws t s =
      let (there, back) = draw_ssrc-none got_entry draws in
      elim (Option-cases (draw_ssrc got_entry draws)) [
        | inl e ↦ ((λ h. there e, λ a. ground arith), λ b' h. absurd (ground arith))
        | inr (r, e) ↦ (
          (λ h. absurd (ground arith), λ a. absurd (let n = back a in ground arith)),
          λ b' h.
              let new : create_new_ssrc b r t s ≡ b' = ground arith in
              rw (← new) (draw_ssrc-FirstFree got_entry draws r e, refl, refl),
        )
      ]
