-- ===== src/Source/Insertion.antt =====
-- Putting a packet into the sorted queue of a source: the loop of ProcessRTPPacket from the back.
use jrtplib.Prelude.{
  ℕ, suc, ◌≤◌, ◌<◌, ◌≡◌, ◌↔◌, ◌⊎◌, inl, inr, refl, sym, subst, ap, true, List, [], ◌∷◌, length, ltb,
  arith, Bool-cases, All, ltb→lt,
}
use jrtplib.Rtp.Packet.{RtpPacket}
use jrtplib.Source.Data.{Search, placed, equal, passed, search_back, search_step, insert_packet}

abbrev pub AllAbove : ℕ → List RtpPacket → Type 0
AllAbove n = All (λ p. n < p.extseqnr)

-- Strictly increasing extended sequence numbers.
abbrev pub Ascending : List RtpPacket → Type 0
Ascending [] = Unit
Ascending (p ∷ rest) = AllAbove p.extseqnr rest × Ascending rest

-- A packet with this number waits in the queue.
abbrev pub Waits : ℕ → List RtpPacket → Type 0
Waits n [] = ⊥
Waits n (p ∷ rest) = (n ≡ p.extseqnr) ⊎ Waits n rest

above_mono : (m n : ℕ) (queue : List RtpPacket) → m < n → AllAbove n queue → AllAbove m queue
above_mono m n [] h a = tt
above_mono m n (p ∷ rest) h a = (omega arith, above_mono m n rest h a.1)

not_above-Waits : (n : ℕ) (queue : List RtpPacket) → AllAbove n queue → ¬ Waits n queue
not_above-Waits n [] a w = w
not_above-Waits n (p ∷ rest) a (inl e) = omega arith
not_above-Waits n (p ∷ rest) a (inr w) = not_above-Waits n rest a.1 w

or_swap : {A B C : Type 0} → A ⊎ (B ⊎ C) → B ⊎ (A ⊎ C)
or_swap (inl a) = inr (inl a)
or_swap (inr (inl b)) = inl b
or_swap (inr (inr c)) = inr (inr c)

or_map : {A B C : Type 0} → (B → C) → A ⊎ B → A ⊎ C
or_map f (inl a) = inl a
or_map f (inr b) = inr (f b)

-- A queue with a packet put in at its place.
record Inserted (queue : List RtpPacket) (new : RtpPacket) (queue' : List RtpPacket) : Type 0 where
  sorted : Ascending queue'
  absent : ¬ Waits new.extseqnr queue
  waits : (n : ℕ) → Waits n queue' ↔ ((n ≡ new.extseqnr) ⊎ Waits n queue)
  above : (m : ℕ) → m < new.extseqnr → AllAbove m queue → AllAbove m queue'
  longer : length queue' ≡ suc (length queue)

-- What the search has found out. A place was found behind a packet with a smaller number.
Found : List RtpPacket → RtpPacket → Search → Type 0
Found queue new (placed queue') =
    Inserted queue new queue' × ((m : ℕ) → AllAbove m queue → m < new.extseqnr)
Found queue new equal = Waits new.extseqnr queue
Found queue new passed = AllAbove new.extseqnr queue

found_front :
    (queue : List RtpPacket) (new : RtpPacket)
    → Ascending queue
    → AllAbove new.extseqnr queue
    → Inserted queue new (new ∷ queue)
found_front queue new s a = record {
  sorted = (a, s);
  absent = not_above-Waits new.extseqnr queue a;
  waits = λ n. (λ w. w, λ w. w);
  above = λ m lt b. (lt, b);
  longer = refl;
}

found_here :
    (p : RtpPacket) (rest : List RtpPacket) (new : RtpPacket)
    → Ascending (p ∷ rest)
    → AllAbove new.extseqnr rest
    → p.extseqnr < new.extseqnr
    → Inserted (p ∷ rest) new (p ∷ new ∷ rest)
found_here p rest new s a h = record {
  sorted = ((h, s.0), (a, s.1));
  absent = λ w. elim w [ inl e ↦ omega arith | inr w' ↦ not_above-Waits new.extseqnr rest a w' ];
  waits = λ n. (or_swap, or_swap);
  above = λ m lt b. (b.0, (lt, b.1));
  longer = refl;
}

found_later :
    (p : RtpPacket) (rest queue' : List RtpPacket) (new : RtpPacket)
    → Ascending (p ∷ rest)
    → Inserted rest new queue'
    → p.extseqnr < new.extseqnr
    → Inserted (p ∷ rest) new (p ∷ queue')
found_later p rest queue' new s f h = record {
  sorted = (f.above p.extseqnr h s.0, f.sorted);
  absent = λ w. elim w [ inl e ↦ omega arith | inr w' ↦ f.absent w' ];
  waits = λ n. (λ w. or_swap (or_map (f.waits n).0 w), λ w. or_map (f.waits n).1 (or_swap w));
  above = λ m lt b. (b.0, f.above m lt b.1);
  longer = ap suc f.longer;
}

search_step-Found :
    (p : RtpPacket) (rest : List RtpPacket) (new : RtpPacket) (r : Search)
    → Ascending (p ∷ rest)
    → Found rest new r
    → Found (p ∷ rest) new (search_step p rest new r)
unfolding search_step Found
search_step-Found p rest new (placed queue') s f =
    (found_later p rest queue' new s f.0 (f.1 p.extseqnr s.0), λ m b. f.1 m b.1)
search_step-Found p rest new equal s f = inr f
search_step-Found p rest new passed s f = elim (Bool-cases (ltb new.extseqnr p.extseqnr)) [
  | inl smaller ↦ rw (smaller, Found) (ltb→lt _ _ smaller, f)
  | inr large ↦ elim (Bool-cases (ltb p.extseqnr new.extseqnr)) [
    | inl larger ↦
        rw (large, larger, Found)
          (found_here p rest new s f (ltb→lt _ _ larger), λ m b. omega (arith, ltb→lt _ _ larger))
    | inr small ↦ rw (large, small, Found) (inl (ground arith))
  ]
]

Found-step :
    (p : RtpPacket) (rest : List RtpPacket) (new : RtpPacket)
    → Ascending (p ∷ rest)
    → Found rest new (search_back rest new)
    → Found (p ∷ rest) new (search_back (p ∷ rest) new)
unfolding search_back
Found-step p rest new s f = search_step-Found p rest new (search_back rest new) s f

search_back-Found :
    (queue : List RtpPacket) (new : RtpPacket)
    → Ascending queue
    → Found queue new (search_back queue new)
search_back-Found [] new s = unfold search_back Found in tt
search_back-Found (p ∷ rest) new s = Found-step p rest new s (search_back-Found rest new s.1)

inserted_iff :
    (queue : List RtpPacket) (new : RtpPacket) (r : Search)
    → Ascending queue
    → search_back queue new ≡ r
    → Found queue new r
    → Ascending (insert_packet queue new).0
      × ((insert_packet queue new).1 ≡ true ↔ ¬ Waits new.extseqnr queue)
      × ((n : ℕ) → Waits n (insert_packet queue new).0 ↔ ((n ≡ new.extseqnr) ⊎ Waits n queue))
unfolding insert_packet Found
inserted_iff queue new (placed q) s e f =
    rw (e, insert_packet) (f.0.sorted, (λ _. f.0.absent, λ _. refl), f.0.waits)
inserted_iff queue new equal s e f =
    rw (e, insert_packet)
      (
        s,
        (λ p. cc, λ absent. absurd (absent f)),
        λ n. (
          λ w. inr w,
          λ w. elim w [ inl q ↦ subst (λ k. Waits k queue) (sym q) f | inr w' ↦ w' ],
        ),
      )
inserted_iff queue new passed s e f =
    let i = found_front queue new s f in
    rw (e, insert_packet) (i.sorted, (λ _. i.absent, λ _. refl), i.waits)

-- Inserting a packet into a sorted queue keeps it sorted and without duplicates; the packet is
-- stored exactly if its number was not waiting, and afterwards its number and the old numbers wait,
-- and no others.
pub insert_packet-Ascending :
    (queue : List RtpPacket) (new : RtpPacket)
    → Ascending queue
    → Ascending (insert_packet queue new).0
      × ((insert_packet queue new).1 ≡ true ↔ ¬ Waits new.extseqnr queue)
      × ((n : ℕ) → Waits n (insert_packet queue new).0 ↔ ((n ≡ new.extseqnr) ⊎ Waits n queue))
insert_packet-Ascending queue new s =
    inserted_iff queue new (search_back queue new) s refl (search_back-Found queue new s)

pub length-inserted :
    (queue : List RtpPacket) (new : RtpPacket)
    → Ascending queue
    → length (insert_packet queue new).0 ≤ suc (length queue)
length-inserted queue new s = go (search_back queue new) refl (search_back-Found queue new s)
  where
    go :
        (r : Search)
        → search_back queue new ≡ r
        → Found queue new r
        → length (insert_packet queue new).0 ≤ suc (length queue)
    go (placed q) e f =
        unfold insert_packet Found in rw (e, insert_packet) (omega (arith, f.0.longer))
    go equal e f = unfold insert_packet in rw (e, insert_packet) (omega arith)
    go passed e f = unfold insert_packet in rw (e, insert_packet) (omega arith)
