-- ===== src/Rtcp/Compound/Parts.antt =====
-- How the packets of an RTCP compound packet lie in its data.
use jrtplib.Prelude.{
  ℕ, ◌+◌, ◌*◌, ◌≤◌, ◌<◌, ◌≡◌, ◌≢◌, ◌⊎◌, inl, inr, refl, ◌∙◌, Bool, true, false, List, [], ◌∷◌,
  Option, none, some, length, length-take, take, drop, ◌==◌, if◌then◌else◌, arith, Bool-cases,
  Outcome, ok, err, fault, rtcpcompound_invalidpacket, out_of_mem, not, >>=-eq-ok, ◌>>=◌,
}
use jrtplib.Bytes.{byte_at, byte_at-lt, u16_at, u16_at-lt}
use jrtplib.Rtcp.Packet.{
  new_unknown, RtcpPacket, app, new_packet, rtcp_version, rtcp_padding, new_app, app_rest,
}
use jrtplib.Rtcp.Packet.Reads.{strip_padding-StripMeans}
use jrtplib.Rtcp.Packet.Reports.{new_sr_reads, new_rr_reads}
use jrtplib.Rtcp.Packet.Leave.{new_bye_reads}
use jrtplib.Rtcp.Sdes.Known.{new_sdes_known}
use jrtplib.Rtcp.Compound.{make_packet, header_ok, take_packet, parse_one}

new_app_returns :
    (bytes : List ℕ)
    → 0 < length bytes
    → (p : RtcpPacket) × (new_app bytes ≡ ok p) × (p.data' ≡ bytes)
unfolding new_app
new_app_returns bytes h =
    let (b0, e0) = byte_at-lt bytes 0 h in
    let (o, eo, m) = strip_padding-StripMeans bytes b0 h in
    (app_rest (new_packet app bytes) o, rw (e0, eo) refl, go o)
  where
    go : (o : Option ℕ) → (app_rest (new_packet app bytes) o).data' ≡ bytes
    go none = refl
    go (some len) = ground arith

pub make_packet_returns :
    (t : ℕ) (bytes : List ℕ)
    → 0 < length bytes
    → (p : RtcpPacket) × (make_packet t bytes ≡ ok p) × (p.data' ≡ bytes)
unfolding make_packet
make_packet_returns t bytes h = elim (Bool-cases (t == 200)) [
  | inl e ↦ let (p, b0, r, x, k, d, y, z) = new_sr_reads bytes h in (p, rw e r, d)
  | inr n0 ↦ elim (Bool-cases (t == 201)) [
    | inl e ↦ let (p, b0, r, x, k, d, y, z) = new_rr_reads bytes h in (p, rw (n0, e) r, d)
    | inr n1 ↦ elim (Bool-cases (t == 202)) [
      | inl e ↦ let (p, b0, r, x, k, d, y) = new_sdes_known bytes h in (p, rw (n0, n1, e) r, d)
      | inr n2 ↦ elim (Bool-cases (t == 203)) [
        | inl e ↦
            let (p, b0, r, x, k, d, y, z) = new_bye_reads bytes h in (p, rw (n0, n1, n2, e) r, d)
        | inr n3 ↦ elim (Bool-cases (t == 204)) [
          | inl e ↦ let (p, r, d) = new_app_returns bytes h in (p, rw (n0, n1, n2, n3, e) r, d)
          | inr n4 ↦ (new_unknown bytes, rw (n0, n1, n2, n3, n4) refl, refl)
        ]
      ]
    ]
  ]
]

-- At the start of the data stands a packet of `len` bytes.
pub record Head (first : Bool) (bytes : List ℕ) (p : RtcpPacket) (len : ℕ) : Type 0 where
  pub b0 : ℕ
  pub packettype : ℕ
  pub words : ℕ
  pub byte0 : byte_at bytes 0 ≡ ok b0
  pub byte1 : byte_at bytes 1 ≡ ok packettype
  pub field : u16_at bytes 2 ≡ ok words
  pub version : rtcp_version b0 ≡ 2
  pub report : first ≡ true → (packettype ≡ 200) ⊎ (packettype ≡ 201)
  pub size : len ≡ (words + 1) * 4
  pub inside : len ≤ length bytes
  pub padding : rtcp_padding b0 ≡ true → len ≡ length bytes
  pub made : make_packet packettype (take len bytes) ≡ ok p

-- The data is these packets one behind the other.
abbrev pub Packets : Bool → List RtcpPacket → List ℕ → Type 0
Packets first [] bytes = (first ≡ false) × (length bytes ≡ 0)
Packets first (p ∷ ps) bytes =
    (len : ℕ) × Head first bytes p len × Packets false ps (drop len bytes)

header_ok-true :
    (first : Bool) (b0 t len datalen : ℕ)
    → header_ok first b0 t len datalen ≡ true
    → (rtcp_version b0 ≡ 2)
      × (first ≡ true → (t ≡ 200) ⊎ (t ≡ 201))
      × (len ≤ datalen)
      × (rtcp_padding b0 ≡ true → len ≡ datalen)
header_ok-true first b0 t len datalen e =
    (ground arith, λ f. ground arith, ground arith, λ f. ground arith)

true-header_ok :
    (first : Bool) (b0 t len datalen : ℕ)
    → rtcp_version b0 ≡ 2
    → (first ≡ true → (t ≡ 200) ⊎ (t ≡ 201))
    → len ≤ datalen
    → (rtcp_padding b0 ≡ true → len ≡ datalen)
    → header_ok first b0 t len datalen ≡ true
true-header_ok first b0 t len datalen v r l p = ground arith

-- What take_packet does with its guards.
abbrev guarded : Bool → Bool → Outcome RtcpPacket → ℕ → Outcome (RtcpPacket × ℕ)
guarded good room m len =
    if not good
    then err rtcpcompound_invalidpacket
    else if not room
    then err out_of_mem
    else (do q ← m; ok (q, len))

guards_ok :
    (good room : Bool) (m : Outcome RtcpPacket) (len : ℕ) (p : RtcpPacket) (l : ℕ)
    → guarded good room m len ≡ ok (p, l)
    → (good ≡ true) × (room ≡ true) × (l ≡ len) × (m ≡ ok p)
guards_ok false room m len p l e = cc
guards_ok true false m len p l e = cc
guards_ok true true (ok q) len p l e = (refl, refl, cc, cc)
guards_ok true true (err c) len p l e = cc
guards_ok true true fault len p l e = cc

pub parse_one_ok :
    (room first : Bool) (bytes : List ℕ) (p : RtcpPacket) (len : ℕ)
    → parse_one room first bytes ≡ ok (p, len)
    → (room ≡ true) × Head first bytes p len
unfolding parse_one take_packet
parse_one_ok room first bytes p len e =
    let (b0, e0, r0) = >>=-eq-ok (byte_at bytes 0) _ e in
    let (t, e1, r1) = >>=-eq-ok (byte_at bytes 1) _ r0 in
    let (words, e2, r2) = >>=-eq-ok (u16_at bytes 2) _ r1 in head b0 e0 t e1 words e2 r2
  where
    head :
        (b0 : ℕ)
        → byte_at bytes 0 ≡ ok b0
        → (t : ℕ) → byte_at bytes 1 ≡ ok t
        → (words : ℕ) → u16_at bytes 2 ≡ ok words
        → take_packet room first b0 t ((words + 1) * 4) bytes ≡ ok (p, len)
        → (room ≡ true) × Head first bytes p len
    head b0 e0 t e1 words e2 r =
        let (g, m, el, ep) =
          guards_ok (header_ok first b0 t ((words + 1) * 4) (length bytes)) room
            (make_packet t (take ((words + 1) * 4) bytes)) ((words + 1) * 4) p len r in
        let (v, f, i, pad) = header_ok-true first b0 t ((words + 1) * 4) (length bytes) g in
        (
          m,
          record {
            b0 = b0;
            packettype = t;
            words = words;
            byte0 = e0;
            byte1 = e1;
            field = e2;
            version = v;
            report = f;
            size = el;
            inside = omega arith;
            padding = λ q. el ∙ pad q;
            made = rw el ep;
          },
        )

take_packet_returns :
    (room first : Bool) (b0 t len : ℕ) (bytes : List ℕ)
    → 4 ≤ length bytes
    → 0 < len
    → take_packet room first b0 t len bytes ≢ fault
unfolding take_packet
take_packet_returns room first b0 t len bytes h z =
    let (p, e, d) = make_packet_returns t (take len bytes) (omega (arith, length-take len bytes)) in
    go (header_ok first b0 t len (length bytes)) room (make_packet t (take len bytes)) p e
  where
    go :
        (good room : Bool) (m : Outcome RtcpPacket) (p : RtcpPacket)
        → m ≡ ok p
        → guarded good room m len ≢ fault
    go false room m p e q = cc
    go true false m p e q = cc
    go true true (ok x) p e q = cc
    go true true (err c) p e q = cc
    go true true fault p e q = cc

pub parse_one_returns :
    (room first : Bool) (bytes : List ℕ) → 4 ≤ length bytes → parse_one room first bytes ≢ fault
unfolding parse_one
parse_one_returns room first bytes h =
    let (b0, e0) = byte_at-lt bytes 0 (omega arith) in
    let (t, e1) = byte_at-lt bytes 1 (omega arith) in
    let (words, e2) = u16_at-lt bytes 2 (omega arith) in
    rw (e0, e1, e2) (take_packet_returns room first b0 t ((words + 1) * 4) bytes h (omega arith))

pub parse_one_complete :
    (first : Bool) (bytes : List ℕ) (p : RtcpPacket) (len : ℕ)
    → Head first bytes p len
    → parse_one true first bytes ≡ ok (p, len)
unfolding parse_one take_packet
parse_one_complete first bytes p len h =
    rw
      (
        h.byte0,
        h.byte1,
        h.field,
        ← h.size,
        true-header_ok first h.b0 h.packettype len (length bytes) h.version h.report h.inside
            h.padding,
        h.made,
      )
      refl
