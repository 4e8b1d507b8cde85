-- ===== src/Rtcp/Packet/Leave.antt =====
-- BYE packets: which packets the constructor knows, and what the accessors read.
use jrtplib.Prelude.{
  ℕ, zero, suc, ◌+◌, ◌-◌, ◌*◌, ◌≤◌, ◌<◌, ◌≡◌, ◌↔◌, ◌⊎◌, inl, inr, refl, sym, ap, subst, ◌∙◌, true,
  List, [], Option, none, some, length, take, drop, ltb, arith, Bool-cases, ok, ok-injective,
}
use jrtplib.Bytes.{byte_at, byte_at-lt, u32_at, u32_at-lt, bytes_at-le}
use jrtplib.Rtcp.Packet.{RtcpPacket, bye, new_packet, rtcp_count, new_bye, bye_rest, leave_reason}
use jrtplib.Rtcp.Packet.Reads.{
  Unpadded, StripMeans, strip_padding-StripMeans, Unpadded-le, Unpadded-unique,
}
use jrtplib.Rtcp.Packet.Fields.{get_bye_ssrc, get_reason_length, get_reason}

-- The bytes behind the SSRCs: none, or a length byte and at least that many bytes.
abbrev pub LeaveFits : List ℕ → ℕ → ℕ → Type 0
LeaveFits bytes ssrclen len =
    (len ≡ ssrclen) ⊎ ((n : ℕ) × (byte_at bytes ssrclen ≡ ok n) × (ssrclen + 1 + n ≤ len))

-- The accessors give the reason that stands behind the SSRCs of `len` bytes: none if they end
-- there, or as many bytes as the length byte says, from the one behind it on.
abbrev pub ReasonRead : RtcpPacket → (ssrclen len : ℕ) → Type 0
ReasonRead p ssrclen len =
    ((len ≡ ssrclen) × (get_reason_length p ≡ ok 0) × (get_reason p ≡ ok []))
    ⊎ ((n : ℕ) × (byte_at p.data' ssrclen ≡ ok n)
        × (ssrclen + 1 + n ≤ len)
        × (get_reason_length p ≡ ok n)
        × (get_reason p ≡ ok (take n (drop (ssrclen + 1) p.data'))))

-- What the accessors of a known BYE packet of `len` bytes read.
pub record LeaveReads (p : RtcpPacket) (count len : ℕ) : Type 0 where
  pub ssrcs :
      (index : ℕ)
      → index < count
      → (v : ℕ) × (u32_at p.data' (4 + 4 * index) ≡ ok v) × (get_bye_ssrc p index ≡ ok v)
  pub reason : ReasonRead p (count * 4 + 4) len

-- What `reasonoffset` says: no reason behind the SSRCs, or that its length byte stands there.
abbrev ReasonInside : RtcpPacket → (ssrclen len : ℕ) → Type 0
ReasonInside p ssrclen len =
    ((p.reasonoffset ≡ 0) × (len ≡ ssrclen))
    ⊎ ((n : ℕ) × (byte_at p.data' ssrclen ≡ ok n)
        × (ssrclen + 1 + n ≤ len)
        × (p.reasonoffset ≡ ssrclen))

not_LeaveFits :
    (bytes : List ℕ) (ssrclen len n : ℕ)
    → ssrclen < len
    → byte_at bytes ssrclen ≡ ok n
    → len < ssrclen + 1 + n
    → ¬ LeaveFits bytes ssrclen len
not_LeaveFits bytes ssrclen len n h e b (inl f) = omega arith
not_LeaveFits bytes ssrclen len n h e b (inr (n', e', f)) = omega (arith, ok-injective (sym e' ∙ e))

-- The packet that the constructor makes of an unpadded length.
record Left (bytes : List ℕ) (count len : ℕ) (q : RtcpPacket) : Type 0 where
  kind : q.packettype ≡ bye
  memory : q.data' ≡ bytes
  known : q.knownformat ≡ true ↔ LeaveFits bytes (count * 4 + 4) len
  reason : q.knownformat ≡ true → ReasonInside q (count * 4 + 4) len
  ssrcs : q.knownformat ≡ true → count * 4 + 4 ≤ len

leave_reason-Left :
    (bytes : List ℕ) (count len : ℕ)
    → len ≤ length bytes
    → (q : RtcpPacket) × (leave_reason (new_packet bye bytes) (count * 4 + 4) len ≡ ok q)
      × Left bytes count len q
unfolding leave_reason
leave_reason-Left bytes count len h = elim (Bool-cases (ltb len (count * 4 + 4))) [
  | inl short ↦ (
    new_packet bye bytes,
    rw short refl,
    record {
      kind = refl;
      memory = refl;
      reason = λ e. cc;
      known = (λ e. cc, λ f. absurd (ground arith));
      ssrcs = λ e. cc;
    },
  )
  | inr long ↦ elim (Bool-cases (ltb (count * 4 + 4) len)) [
    | inl more ↦
        let (n, en) = byte_at-lt bytes (count * 4 + 4) (ground arith) in
        elim (Bool-cases (ltb (len - (count * 4 + 4) - 1) n)) [
          | inl big ↦ (
            new_packet bye bytes,
            rw (long, more, en, big) refl,
            record {
              kind = refl;
              memory = refl;
              reason = λ e. cc;
              known = (
                λ e. cc,
                λ f.
                    absurd (
                      not_LeaveFits bytes (count * 4 + 4) len n (ground arith) en (ground arith) f),
              );
              ssrcs = λ e. cc;
            },
          )
          | inr fits ↦ (
            record (new_packet bye bytes) { reasonoffset = count * 4 + 4; knownformat = true },
            rw (long, more, en, fits) refl,
            record {
              kind = refl;
              memory = refl;
              reason = λ e. inr (n, en, ground arith, refl);
              known = (λ e. inr (n, en, ground arith), λ f. refl);
              ssrcs = λ e. ground arith;
            },
          )
        ]
    | inr same ↦ (
      record (new_packet bye bytes) { knownformat = true },
      rw (long, same) refl,
      record {
        kind = refl;
        memory = refl;
        reason = λ e. inl (refl, ground arith);
        known = (λ e. inl (ground arith), λ f. refl);
        ssrcs = λ e. ground arith;
      },
    )
  ]
]

reason_reads :
    (p : RtcpPacket) (ssrclen len : ℕ)
    → p.knownformat ≡ true
    → 0 < ssrclen
    → ReasonInside p ssrclen len
    → len ≤ length p.data'
    → ReasonRead p ssrclen len
unfolding get_reason get_reason_length
reason_reads p ssrclen len k pos (inl (none', same)) h =
    inl (same, rw (k, none') refl, rw (k, none') refl)
reason_reads p ssrclen len k pos (inr (zero, e, fits, at)) h =
    inr (zero, e, fits, ground arith, ground arith)
reason_reads p ssrclen len k pos (inr (suc n, e, fits, at)) h =
    let inside = bytes_at-le p.data' (ssrclen + 1) (suc n) (omega arith) in
    let got : get_reason_length p ≡ ok (suc n) = ground arith in
    inr (suc n, e, fits, got, ground arith)

Left-reads :
    (bytes : List ℕ) (count len : ℕ) (q : RtcpPacket)
    → len ≤ length bytes
    → Left bytes count len q
    → q.knownformat ≡ true
    → LeaveReads q count len
Left-reads bytes count len q h l k =
    let size : length q.data' ≡ length bytes = ap length l.memory in
    record {
      ssrcs = λ index lt.
          let (v, ev) = u32_at-lt q.data' (4 + 4 * index) (omega (arith, l.ssrcs k)) in
          (v, ev, unfold get_bye_ssrc in rw (k, ev) refl);
      reason = reason_reads q (count * 4 + 4) len k (omega arith) (l.reason k) (omega arith);
    }

bye_rest_known :
    (bytes : List ℕ) (b0 : ℕ) (o : Option ℕ)
    → StripMeans bytes b0 o
    → (q : RtcpPacket) × (bye_rest (new_packet bye bytes) (rtcp_count b0) o ≡ ok q)
      × (q.packettype ≡ bye)
      × (q.data' ≡ bytes)
      × (q.knownformat ≡ true
          ↔ ((len : ℕ) × Unpadded bytes b0 len × LeaveFits bytes (rtcp_count b0 * 4 + 4) len))
      × (q.knownformat ≡ true
          → (len : ℕ) × Unpadded bytes b0 len × LeaveReads q (rtcp_count b0) len)
unfolding StripMeans bye_rest
bye_rest_known bytes b0 none m =
    (new_packet bye bytes, refl, refl, refl, (λ e. cc, λ (len, u, f). absurd (m len u)), λ e. cc)
bye_rest_known bytes b0 (some len) m =
    let inside = Unpadded-le bytes b0 len m in
    let (q, e, l) = leave_reason-Left bytes (rtcp_count b0) len inside in
    (
      q,
      e,
      l.kind,
      l.memory,
      (
        λ k. (len, m, l.known.0 k),
        λ (len', u, f). l.known.1 (
            subst (LeaveFits bytes (rtcp_count b0 * 4 + 4)) (Unpadded-unique bytes b0 len' len u m)
              f),
      ),
      λ k. (len, m, Left-reads bytes (rtcp_count b0) len q inside l k),
    )

-- The constructor of RTCPBYEPacket, on data with at least one byte, reads inside the data; it knows
-- the format exactly if the data less its padding holds the announced SSRCs and then nothing or a
-- length byte with at least that many bytes. Then the accessors give the four bytes of each
-- announced SSRC, and as the reason nothing if the data ends behind the SSRCs, else the bytes behind
-- the length byte, as many as it says and inside the data less its padding.
pub new_bye_reads :
    (bytes : List ℕ)
    → 0 < length bytes
    → (p : RtcpPacket) × (b0 : ℕ) × (new_bye bytes ≡ ok p)
      × (byte_at bytes 0 ≡ ok b0)
      × (p.packettype ≡ bye)
      × (p.data' ≡ bytes)
      × (p.knownformat ≡ true
          ↔ ((len : ℕ) × Unpadded bytes b0 len × LeaveFits bytes (rtcp_count b0 * 4 + 4) len))
      × (p.knownformat ≡ true
          → (len : ℕ) × Unpadded bytes b0 len × LeaveReads p (rtcp_count b0) len)
unfolding new_bye
new_bye_reads bytes h =
    let (b0, e0) = byte_at-lt bytes 0 h in
    let (o, eo, m) = strip_padding-StripMeans bytes b0 h in
    let (q, e, kind, memory, known, reads) = bye_rest_known bytes b0 o m in
    (q, b0, rw (e0, eo) e, e0, kind, memory, known, reads)
