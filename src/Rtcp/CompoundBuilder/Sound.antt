-- ===== src/Rtcp/CompoundBuilder/Sound.antt =====
-- The packets that RTCPCompoundPacketBuilder writes are of a known format: reports, BYE and APP.
use jrtplib.Prelude.{
  ℕ, zero, suc, ◌+◌, ◌-◌, ◌*◌, ◌/◌, ◌%◌, ◌≤◌, ◌<◌, ◌≡◌, refl, ap, sym, subst, ◌∙◌, inl, inr, Bool,
  Bool-cases, ◌&&◌, if◌then◌else◌, ◌==◌, le→ltb, true, false, List, [], ◌∷◌, ◌++◌, some, All,
  length, length-append, take, length-take, arith, ok, ok-injective, ==_iff,
}
use jrtplib.Bytes.{byte_at, byte_at-append, put_u16, put_u32}
use jrtplib.Rtcp.Packet.{
  RtcpPacket, sr, rr, app, new_packet, rtcp_count, rtcp_padding, strip_padding, new_rr, new_sr,
  new_app,
}
use jrtplib.Rtcp.Packet.Leave.{LeaveFits, new_bye_reads}
use jrtplib.Rtcp.Compound.{make_packet}
use jrtplib.Rtcp.CompoundBuilder.{Report}
use jrtplib.Rtcp.CompoundBuilder.Farewell.{
  packet_bytes, zeros, put_all, reason_bytes, padding_of, bye_size,
}
use jrtplib.Rtcp.CompoundBuilder.End.{concat, report_part}

-- A whole packet of this type with room for its length in the header, which the constructor for
-- the type knows.
pub record Sound (packettype : ℕ) (bytes : List ℕ) : Type 0 where
  pub count : ℕ
  pub body : List ℕ
  pub whole : bytes ≡ packet_bytes count packettype body
  pub words : length body % 4 ≡ 0
  pub fits : length body < 262144
  pub object : RtcpPacket
  pub made : make_packet packettype bytes ≡ ok object
  pub known : object.knownformat ≡ true

pub length-packet_bytes :
    (count t : ℕ) (body : List ℕ) → length (packet_bytes count t body) ≡ 4 + length body
unfolding packet_bytes put_u16
length-packet_bytes count t body = omega arith

pub byte0-packet_bytes :
    (count t : ℕ) (body : List ℕ) → byte_at (packet_bytes count t body) 0 ≡ ok (128 + count % 32)
unfolding packet_bytes byte_at
byte0-packet_bytes count t body = refl

pub byte_at-packet_body :
    (count t : ℕ) (xs ys : List ℕ) (k i : ℕ)
    → i ≡ 4 + length xs + k
    → byte_at (packet_bytes count t (xs ++ ys)) i ≡ byte_at ys k
unfolding packet_bytes put_u16
byte_at-packet_body count t xs ys k i e =
    let n : ℕ = (4 + length (xs ++ ys)) / 4 - 1 in
    byte_at-append ((128 + count % 32) ∷ t ∷ (n / 256 % 256) ∷ (n % 256) ∷ xs) ys k i
      (omega (arith, e))

pub strip_padding-packet_bytes :
    (count t : ℕ) (body : List ℕ)
    → strip_padding (packet_bytes count t body) (128 + count % 32) ≡ ok (some (4 + length body))
unfolding strip_padding
strip_padding-packet_bytes count t body =
    let plain : rtcp_padding (128 + count % 32) ≡ false = ground arith in
    rw (plain, length-packet_bytes count t body) refl

pub count-packet_bytes : (count : ℕ) → count < 32 → rtcp_count (128 + count % 32) ≡ count
count-packet_bytes count h = omega arith

-- A report of `n` blocks.
rr-Sound :
    (n : ℕ) (body : List ℕ)
    → n < 32
    → length body ≡ 4 + 24 * n
    → Sound 201 (packet_bytes n 201 body)
rr-Sound n body h l =
    let c = count-packet_bytes n h in
    let good : ((8 + 24 * n) == (4 + length body)) ≡ true = (==_iff _ _).1 (omega (arith, l)) in
    record {
      count = n;
      body = body;
      whole = refl;
      words = omega (arith, l);
      fits = omega (arith, l);
      object = record (new_packet rr (packet_bytes n 201 body)) { knownformat = true };
      made =
          unfold make_packet new_rr in
          rw (byte0-packet_bytes n 201 body, strip_padding-packet_bytes n 201 body, c, good) refl;
      known = refl;
    }

sr-Sound :
    (n : ℕ) (body : List ℕ)
    → n < 32
    → length body ≡ 24 + 24 * n
    → Sound 200 (packet_bytes n 200 body)
sr-Sound n body h l =
    let c = count-packet_bytes n h in
    let good : ((28 + 24 * n) == (4 + length body)) ≡ true = (==_iff _ _).1 (omega (arith, l)) in
    record {
      count = n;
      body = body;
      whole = refl;
      words = omega (arith, l);
      fits = omega (arith, l);
      object = record (new_packet sr (packet_bytes n 200 body)) { knownformat = true };
      made =
          unfold make_packet new_sr in
          rw (byte0-packet_bytes n 200 body, strip_padding-packet_bytes n 200 body, c, good) refl;
      known = refl;
    }

abbrev pub IsBlock : List ℕ → Type 0
IsBlock d = length d ≡ 24

pub length-concat_blocks :
    (blocks : List (List ℕ)) → All IsBlock blocks → length (concat blocks) ≡ 24 * length blocks
length-concat_blocks [] a = refl
length-concat_blocks (d ∷ ds) a =
    omega (arith, length-append d (concat ds), a.0, length-concat_blocks ds a.1)

-- What StartSenderReport and StartReceiverReport put into the header.
abbrev pub Started : Report → Type 0
Started r = (r.headerlength ≡ (if r.is_sr then 24 else 4)) × (length r.headerdata ≡ r.headerlength)

pub report_part-Sound :
    (r : Report) (first : Bool) (blocks : List (List ℕ))
    → Started r
    → All IsBlock blocks
    → length blocks < 32
    → Sound (report_part r first blocks).0 (report_part r first blocks).1
      × (length (report_part r first blocks).1
          ≡ 8 + (if first && r.is_sr then 20 else 0) + 24 * length blocks)
unfolding report_part
report_part-Sound r first blocks h a lt = elim (Bool-cases (first && r.is_sr)) [
  | inl e ↦
      let size : length (r.headerdata ++ concat blocks) ≡ 24 + 24 * length blocks =
        ground (arith, length-append r.headerdata (concat blocks), length-concat_blocks blocks a) in
      rw e (
        sr-Sound (length blocks) (r.headerdata ++ concat blocks) lt size,
        omega
            (arith, length-packet_bytes (length blocks) 200 (r.headerdata ++ concat blocks), size),
      )
  | inr e ↦
      let size : length (take 4 r.headerdata ++ concat blocks) ≡ 4 + 24 * length blocks = ground (
        arith,
        length-append (take 4 r.headerdata) (concat blocks),
        length-take 4 r.headerdata,
        length-concat_blocks blocks a,
      ) in
      rw e (
        rr-Sound (length blocks) (take 4 r.headerdata ++ concat blocks) lt size,
        omega (
          arith,
          length-packet_bytes (length blocks) 201 (take 4 r.headerdata ++ concat blocks),
          size,
        ),
      )
]

pub length-put_all : (ns : List ℕ) → length (put_all ns) ≡ 4 * length ns
unfolding put_all put_u32
length-put_all [] = refl
length-put_all (n ∷ ns) = omega (arith, length-put_all ns)

pub length-zeros : (n : ℕ) → length (zeros n) ≡ n
length-zeros zero = refl
length-zeros (suc n) = ap suc (length-zeros n)

-- A BYE packet with its reason is as long as AddBYEPacket reckons.
pub length-bye_body :
    (ssrcs reason : List ℕ)
    → 4 + length (put_all ssrcs ++ reason_bytes reason) ≡ bye_size ssrcs reason
length-bye_body ssrcs [] = omega (arith, length-append (put_all ssrcs) [], length-put_all ssrcs)
length-bye_body ssrcs (c ∷ cs) = ground (
  arith,
  length-append (put_all ssrcs) (reason_bytes (c ∷ cs)),
  length-put_all ssrcs,
  length-append cs (zeros (padding_of (1 + length (c ∷ cs)))),
  length-zeros (padding_of (1 + length (c ∷ cs))),
)

bye_LeaveFits :
    (ssrcs reason : List ℕ)
    → length reason < 256
    → LeaveFits
        (packet_bytes (length ssrcs) 203 (put_all ssrcs ++ reason_bytes reason))
        (length ssrcs * 4 + 4)
        (4 + length (put_all ssrcs ++ reason_bytes reason))
bye_LeaveFits ssrcs [] h =
    inl (omega (arith, length-append (put_all ssrcs) [], length-put_all ssrcs))
bye_LeaveFits ssrcs (c ∷ cs) h =
    let there =
      byte_at-packet_body (length ssrcs) 203 (put_all ssrcs) (reason_bytes (c ∷ cs)) 0
        (length ssrcs * 4 + 4) (omega (arith, length-put_all ssrcs)) in
    inr (
      length (c ∷ cs) % 256,
      there ∙ (unfold byte_at in refl),
      ground (arith, length-bye_body ssrcs (c ∷ cs)),
    )

pub bye-Sound :
    (ssrcs reason : List ℕ)
    → length ssrcs ≤ 31
    → length reason < 256
    → Sound 203 (packet_bytes (length ssrcs) 203 (put_all ssrcs ++ reason_bytes reason))
bye-Sound ssrcs reason n h =
    let body : List ℕ = put_all ssrcs ++ reason_bytes reason in
    let bytes : List ℕ = packet_bytes (length ssrcs) 203 body in
    let size = length-packet_bytes (length ssrcs) 203 body in
    let (p, b0, made, e0, kind, memory, known, reads) = new_bye_reads bytes (omega (arith, size)) in
    let same : b0 ≡ 128 + length ssrcs % 32 =
      ok-injective (sym e0 ∙ byte0-packet_bytes (length ssrcs) 203 body) in
    let counted : rtcp_count b0 ≡ length ssrcs = omega (arith, same) in
    let plain : rtcp_padding b0 ≡ false = ground arith in
    record {
      count = length ssrcs;
      body = body;
      whole = refl;
      words = ground (arith, length-bye_body ssrcs reason);
      fits = ground (arith, length-bye_body ssrcs reason);
      object = p;
      made = unfold make_packet in made;
      known = known.1 (
        4 + length body,
        inl (plain, sym size),
        subst (λ c. LeaveFits bytes (c * 4 + 4) (4 + length body)) (sym counted)
            (bye_LeaveFits ssrcs reason h),
      );
    }

pub app-Sound :
    (subtype : ℕ) (body : List ℕ)
    → 8 ≤ length body
    → length body % 4 ≡ 0
    → length body < 262144
    → Sound 204 (packet_bytes subtype 204 body)
app-Sound subtype body h w f = record {
  count = subtype;
  body = body;
  whole = refl;
  words = w;
  fits = f;
  object = record (new_packet app (packet_bytes subtype 204 body)) {
    appdatalen = 4 + length body - 12;
    knownformat = true;
  };
  made =
      unfold make_packet new_app in
      rw
        (
          byte0-packet_bytes subtype 204 body,
          strip_padding-packet_bytes subtype 204 body,
          le→ltb (4 + length body) 12 (omega arith),
        )
        refl;
  known = refl;
}
