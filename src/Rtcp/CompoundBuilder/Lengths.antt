-- ===== src/Rtcp/CompoundBuilder/Lengths.antt =====
-- How many bytes the packets take that EndBuild writes, and that each is of a known format.
use jrtplib.Prelude.{
  ℕ, zero, suc, ◌+◌, ◌-◌, ◌*◌, ◌≤◌, ◌<◌, ◌≡◌, inl, inr, refl, ap, suc==zero, Bool, false, ◌&&◌,
  List, [], ◌∷◌, ◌++◌, map, All, All-take, All-drop, length, length-append, length-take,
  length-drop, take, drop, ltb, ◌==◌, if◌then◌else◌, arith, Bool-cases,
}
use jrtplib.Rtcp.CompoundBuilder.{Report, SdesSource, packets_for, sdes_bytes, sources_bytes}
use jrtplib.Rtcp.CompoundBuilder.End.{
  Part, concat, chunks_bytes, report_part, report_parts, sdes_part, sdes_parts, written,
}
use jrtplib.Rtcp.CompoundBuilder.Sound.{
  Sound, IsBlock, Started, report_part-Sound, length-packet_bytes,
}
use jrtplib.Rtcp.CompoundBuilder.SdesSound.{IsSource, sdes_part-Sound, length-chunks_bytes}

abbrev pub AllSound : List Part → Type 0
AllSound ps = All (λ p. Sound p.0 p.1) ps

packets_for-step : (n : ℕ) → 31 < n → packets_for n ≡ 1 + packets_for (n - 31)
packets_for-step n h = ground arith

packets_for-one : (n : ℕ) → 0 < n → n ≤ 31 → packets_for n ≡ 1
packets_for-one n z h = ground arith

-- A report without blocks is a packet too.
abbrev pub blocks_size : ℕ → ℕ
blocks_size n = n * 24 + (if n == 0 then 8 else packets_for n * 8)

pub report_parts-AllSound :
    (fuel : ℕ) (r : Report) (first : Bool) (blocks : List (List ℕ))
    → length blocks < fuel
    → Started r
    → All IsBlock blocks
    → AllSound (report_parts fuel r first blocks)
      × (length (written (report_parts fuel r first blocks))
          ≡ (if first && r.is_sr then 20 else 0) + blocks_size (length blocks))
unfolding report_parts
report_parts-AllSound zero r first blocks f h a = absurd (omega arith)
report_parts-AllSound (suc fuel) r first blocks f h a =
    let (s, l) =
      report_part-Sound r first (take 31 blocks) h (All-take IsBlock 31 blocks a)
        (omega (arith, length-take 31 blocks)) in
    let d = length-drop 31 blocks in
    let t = length-take 31 blocks in
    elim (Bool-cases (length (drop 31 blocks) == 0)) [
      | inl e ↦
          rw e ((s, tt), ground (arith, length-append (report_part r first (take 31 blocks)).1 []))
      | inr e ↦
          let (ss, ls) =
            report_parts-AllSound fuel r false (drop 31 blocks) (ground arith) h
              (All-drop IsBlock 31 blocks a) in
          let more =
            length-append (report_part r first (take 31 blocks)).1
              (written (report_parts fuel r false (drop 31 blocks))) in
          let step = packets_for-step (length blocks) (ground arith) in rw e ((s, ss), ground arith)
    ]

sources_bytes-take :
    (n : ℕ) (ss : List SdesSource)
    → sources_bytes (take n ss) + sources_bytes (drop n ss) ≡ sources_bytes ss
sources_bytes-take zero ss = omega arith
sources_bytes-take (suc n) [] = omega arith
sources_bytes-take (suc n) (s ∷ ss) = omega (arith, sources_bytes-take n ss)

pub sdes_bytes-sources :
    (ss : List SdesSource) → sdes_bytes ss ≡ sources_bytes ss + packets_for (length ss) * 4
unfolding sdes_bytes
sdes_bytes-sources [] = ground arith
sdes_bytes-sources (s ∷ ss) = refl

length-sdes_part :
    (ss : List SdesSource) → All IsSource ss → length (sdes_part ss).1 ≡ 4 + sources_bytes ss
unfolding sdes_part
length-sdes_part ss a =
    let (e, d) = length-chunks_bytes 4 ss (omega arith) a in
    omega (arith, length-packet_bytes (length ss) 202 (chunks_bytes 4 ss), e)

packets_for-drop :
    (ss : List SdesSource)
    → 0 < length ss
    → packets_for (length ss) ≡ 1 + packets_for (length (drop 31 ss))
packets_for-drop ss h = elim (Bool-cases (ltb 31 (length ss))) [
  | inl e ↦
      let step = packets_for-step (length ss) (ground arith) in
      omega (arith, step, ap packets_for (length-drop 31 ss))
  | inr e ↦
      let none_left : length (drop 31 ss) ≡ 0 = ground (arith, length-drop 31 ss) in
      let step = packets_for-one (length ss) h (ground arith) in
      omega (arith, step, ap packets_for none_left)
]

pub length-sdes_parts :
    (fuel : ℕ) (ss : List SdesSource)
    → length ss ≤ fuel
    → All IsSource ss
    → length (written (sdes_parts fuel ss)) ≡ sources_bytes ss + packets_for (length ss) * 4
unfolding sdes_parts
length-sdes_parts zero [] f a = ground arith
length-sdes_parts zero (s ∷ ss) f a = absurd (omega arith)
length-sdes_parts (suc fuel) [] f a = ground arith
length-sdes_parts (suc fuel) (s ∷ ss) f a =
    let all : List SdesSource = s ∷ ss in
    let this = length-sdes_part (take 31 all) (All-take IsSource 31 all a) in
    let later =
      length-sdes_parts fuel (drop 31 all) (omega (arith, length-drop 31 all))
        (All-drop IsSource 31 all a) in
    let both = sources_bytes-take 31 all in
    let more =
      length-append (sdes_part (take 31 all)).1 (written (sdes_parts fuel (drop 31 all))) in
    let count = packets_for-drop all (omega arith) in
    rw (suc==zero (length ss)) (omega (arith, this, later, both, more, count))

pub sdes_parts-AllSound :
    (fuel : ℕ) (ss : List SdesSource)
    → All IsSource ss
    → 4 + sources_bytes ss ≤ 262144
    → AllSound (sdes_parts fuel ss)
unfolding sdes_parts
sdes_parts-AllSound zero ss a f = tt
sdes_parts-AllSound (suc fuel) ss a f = elim (Bool-cases (length ss == 0)) [
  | inl e ↦ rw e tt
  | inr e ↦
      let both = sources_bytes-take 31 ss in
      rw e (
        sdes_part-Sound (take 31 ss) (All-take IsSource 31 ss a) (omega (arith, length-take 31 ss))
            (omega (arith, both)),
        sdes_parts-AllSound fuel (drop 31 ss) (All-drop IsSource 31 ss a) (omega (arith, both)),
      )
]

pub length-written_append :
    (ps qs : List Part) → length (written (ps ++ qs)) ≡ length (written ps) + length (written qs)
length-written_append [] qs = omega arith
length-written_append (p ∷ ps) qs = omega (
  arith,
  length-written_append ps qs,
  length-append p.1 (written ps),
  length-append p.1 (written (ps ++ qs)),
)

pub length-written_buffers :
    (t : ℕ) (ds : List (List ℕ)) → length (written (map (λ d. (t, d)) ds)) ≡ length (concat ds)
length-written_buffers t [] = refl
length-written_buffers t (d ∷ ds) = omega (
  arith,
  length-written_buffers t ds,
  length-append d (concat ds),
  length-append d (written (map (λ d. (t, d)) ds)),
)

pub buffers-AllSound :
    (t : ℕ) (ds : List (List ℕ)) → All (Sound t) ds → AllSound (map (λ d. (t, d)) ds)
buffers-AllSound t [] a = tt
buffers-AllSound t (d ∷ ds) a = (a.0, buffers-AllSound t ds a.1)
