-- ===== src/Rtcp/Compound/Loop.antt =====
-- The loop of RTCPCompoundPacket::ParseData, and the packets that lie in its data.
use jrtplib.Prelude.{
  ℕ, zero, suc, ◌-◌, ◌≤◌, ◌<◌, ◌≡◌, ◌≢◌, ◌↔◌, ◌⊎◌, inl, inr, refl, Bool, true, false, List, [], ◌∷◌,
  lt→ltb, length, length-drop, drop, ltb, leb, arith, Bool-cases, Outcome, ok, err, fault,
  >>=-eq-ok,
}
use jrtplib.Rtcp.Packet.{RtcpPacket}
use jrtplib.Rtcp.Compound.{parse_one, go_on, parse_loop, parse_data}
use jrtplib.Rtcp.Compound.Parts.{Packets, parse_one_ok, parse_one_returns, parse_one_complete}

go_on_ok :
    (p : RtcpPacket) (left : ℕ) (more : Outcome (List RtcpPacket)) (ps : List RtcpPacket)
    → go_on p left more ≡ ok ps
    → ((ps' : List RtcpPacket) × (4 ≤ left) × (more ≡ ok ps') × (ps ≡ p ∷ ps'))
      ⊎ ((left ≡ 0) × (ps ≡ p ∷ []))
unfolding go_on
go_on_ok p left (ok ps') ps e = ground arith
go_on_ok p left (err c) ps e = ground arith
go_on_ok p left fault ps e = ground arith

-- The loop takes the data apart into packets.
parse_loop_ok :
    (fuel room : ℕ) (first : Bool) (bytes : List ℕ) (ps : List RtcpPacket)
    → parse_loop fuel room first bytes ≡ ok ps
    → (length ps ≤ room) × Packets first ps bytes
unfolding parse_loop
parse_loop_ok zero room first bytes ps e = cc
parse_loop_ok (suc fuel) room first bytes ps e =
    let ((p, len), ea, r) = >>=-eq-ok (parse_one (ltb 0 room) first bytes) _ e in
    let (m, head) = parse_one_ok (ltb 0 room) first bytes p len ea in
    elim (go_on_ok p (length (drop len bytes)) (parse_loop fuel (room - 1) false (drop len bytes))
      ps r) [
        | inl (ps', four, em, eps) ↦
            let (short, rest) = parse_loop_ok fuel (room - 1) false (drop len bytes) ps' em in
            rw eps (ground arith, (len, head, rest))
        | inr (none', eps) ↦ rw eps (ground arith, (len, head, (refl, none')))
      ]

go_on_returns :
    (p : RtcpPacket) (left : ℕ) (more : Outcome (List RtcpPacket))
    → (4 ≤ left → more ≢ fault)
    → go_on p left more ≢ fault
unfolding go_on
go_on_returns p left (ok ps) m e = ground arith
go_on_returns p left (err c) m e = ground arith
go_on_returns p left fault m e = elim (Bool-cases (leb 4 left)) [
  | inl long ↦ m (ground arith) refl
  | inr short ↦ ground arith
]

parse_loop_returns :
    (fuel room : ℕ) (first : Bool) (bytes : List ℕ)
    → length bytes ≤ fuel
    → 4 ≤ length bytes
    → parse_loop fuel room first bytes ≢ fault
unfolding parse_loop
parse_loop_returns zero room first bytes f h = absurd (omega arith)
parse_loop_returns (suc fuel) room first bytes f h =
    step (parse_one (ltb 0 room) first bytes) refl (λ len z four.
      parse_loop_returns fuel (room - 1) false (drop len bytes)
        (omega (arith, length-drop len bytes)) four)
  where
    step :
        (m : Outcome (RtcpPacket × ℕ))
        → parse_one (ltb 0 room) first bytes ≡ m
        → ((len : ℕ)
            → 0 < len
            → 4 ≤ length (drop len bytes)
            → parse_loop fuel (room - 1) false (drop len bytes) ≢ fault)
        → parse_loop (suc fuel) room first bytes ≢ fault
    step (ok (p, len)) e ih =
        let (m, head) = parse_one_ok (ltb 0 room) first bytes p len e in
        unfold parse_loop in
        rw e (
          go_on_returns p (length (drop len bytes))
            (parse_loop fuel (room - 1) false (drop len bytes)) (ih len (omega (arith, head.size))))
    step (err c) e ih = unfold parse_loop in rw e (λ q. cc)
    step fault e ih = absurd (parse_one_returns (ltb 0 room) first bytes h e)

parse_loop_complete :
    (fuel room : ℕ) (first : Bool) (bytes : List ℕ) (p : RtcpPacket) (ps : List RtcpPacket)
    → length bytes ≤ fuel
    → suc (length ps) ≤ room
    → Packets first (p ∷ ps) bytes
    → parse_loop fuel room first bytes ≡ ok (p ∷ ps)
unfolding parse_loop go_on
parse_loop_complete zero room first bytes p ps f h (len, head, rest) =
    absurd (omega (arith, head.size, head.inside))
parse_loop_complete (suc fuel) room first bytes p [] f h (len, head, rest) =
    rw (lt→ltb 0 room (omega arith), parse_one_complete first bytes p len head, rest.1) refl
parse_loop_complete (suc fuel) room first bytes p (q ∷ ps) f h (len, head, rest) =
    let (len', head', rest') = rest in
    let four : leb 4 (length (drop len bytes)) ≡ true = ground (arith, head'.size, head'.inside) in
    rw
      (
        lt→ltb 0 room (omega arith),
        parse_one_complete first bytes p len head,
        four,
        parse_loop_complete fuel (room - 1) false (drop len bytes) q ps
            (omega (arith, length-drop len bytes, head.size)) (omega arith) rest,
      )
      refl

true-false : true ≢ false
true-false e = cc

Packets-room : (ps : List RtcpPacket) (bytes : List ℕ) → Packets true ps bytes → 4 ≤ length bytes
Packets-room [] bytes c = absurd (true-false c.0)
Packets-room (p ∷ ps) bytes (len, head, rest) = omega (arith, head.size, head.inside)

-- ParseData comes to an end and reads inside the data; it returns a list of packets exactly if
-- there is memory for them and the data is these packets one behind the other: the first an SR or an
-- RR, each of version 2 with the length that its header gives, padding in the last only.
pub parse_data-Packets :
    (room : ℕ) (bytes : List ℕ)
    → (parse_data room bytes ≢ fault)
      × ((ps : List RtcpPacket)
          → parse_data room bytes ≡ ok ps ↔ ((length ps ≤ room) × Packets true ps bytes))
unfolding parse_data
parse_data-Packets room bytes = elim (Bool-cases (ltb (length bytes) 4)) [
  | inl short ↦ (
    λ e. ground arith,
    λ ps. (λ e. ground arith, λ (h, c). absurd (ground (arith, Packets-room ps bytes c))),
  )
  | inr long ↦ rw long (
    parse_loop_returns (length bytes) room true bytes (omega arith) (ground arith),
    λ ps. (parse_loop_ok (length bytes) room true bytes ps, λ (h, c). whole ps h c),
  )
]
  where
    whole :
        (ps : List RtcpPacket)
        → length ps ≤ room
        → Packets true ps bytes
        → parse_loop (length bytes) room true bytes ≡ ok ps
    whole [] h c = absurd (true-false c.0)
    whole (p ∷ ps) h c = parse_loop_complete (length bytes) room true bytes p ps (omega arith) h c
