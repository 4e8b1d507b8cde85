-- ===== src/Rtcp/Packet/Reports.antt =====
-- Sender and receiver reports: which packets the constructors know, and what their accessors read.
use jrtplib.Prelude.{ℕ, ◌+◌, ◌*◌, ◌≤◌, ◌<◌, ◌≡◌, ◌↔◌, refl, true, List, length, arith, Outcome, ok}
use jrtplib.Bytes.{byte_at, byte_at-lt, u32_at-lt}
use jrtplib.Rtcp.Packet.{RtcpPacket, sr, rr, new_packet, rtcp_count, new_rr, new_sr, report_known}
use jrtplib.Rtcp.Packet.Reads.{Unpadded, strip_padding-StripMeans, known_report, Unpadded-le}
use jrtplib.Rtcp.Packet.Fields.{
  get_count, get_sender_ssrc, get_sender_info, report_field, get_fraction_lost,
  get_lost_packet_count, goto_report, signed24,
}

-- A call gives a value.
abbrev pub Returns {ℓ} : {A : Type ℓ} → Outcome A → Type ℓ
Returns {A = A} m = (a : A) × (m ≡ ok a)

-- Every accessor of a report reads inside the packet, for each block that the count announces.
pub record ReportReads (p : RtcpPacket) (count : ℕ) : Type 0 where
  pub counted : get_count p ≡ ok count
  pub sender : Returns (get_sender_ssrc p)
  pub fields :
      (index offset : ℕ) → index < count → offset ≤ 20 → Returns (report_field p offset index)
  pub fraction : (index : ℕ) → index < count → Returns (get_fraction_lost p index)
  pub lost : (index : ℕ) → index < count → Returns (get_lost_packet_count p index)

block_reads :
    (p : RtcpPacket) (b0 base : ℕ)
    → p.knownformat ≡ true
    → byte_at p.data' 0 ≡ ok b0
    → 8 ≤ base
    → ((index : ℕ) → goto_report p index ≡ base + index * 24)
    → base + 24 * rtcp_count b0 ≤ length p.data'
    → ReportReads p (rtcp_count b0)
block_reads p b0 base k e h g fits = record {
  counted = unfold get_count in rw (k, e) refl;
  sender =
      let (v, ev) = u32_at-lt p.data' 4 (omega arith) in
      (v, unfold get_sender_ssrc in rw (k, ev) refl);
  fields = λ index offset lt le.
      let (v, ev) = u32_at-lt p.data' (goto_report p index + offset) (omega (arith, g index)) in
      (v, unfold report_field in rw (k, ev) refl);
  fraction = λ index lt.
      let (v, ev) = byte_at-lt p.data' (goto_report p index + 4) (omega (arith, g index)) in
      (v, unfold get_fraction_lost in rw (k, ev) refl);
  lost = λ index lt.
      let (a, ea) = byte_at-lt p.data' (goto_report p index + 5) (omega (arith, g index)) in
      let (b, eb) = byte_at-lt p.data' (goto_report p index + 6) (omega (arith, g index)) in
      let (c, ec) = byte_at-lt p.data' (goto_report p index + 7) (omega (arith, g index)) in
      (signed24 (c + b * 256 + a * 65536), unfold get_lost_packet_count in rw (k, ea, eb, ec) refl);
}

-- The constructor of RTCPRRPacket, on data with at least one byte, reads inside the data; it knows
-- the format exactly if the data less its padding is the header, the sender's SSRC and the announced blocks, and
-- then every accessor reads inside the data for each announced block.
pub new_rr_reads :
    (bytes : List ℕ)
    → 0 < length bytes
    → (p : RtcpPacket) × (b0 : ℕ) × (new_rr bytes ≡ ok p)
      × (byte_at bytes 0 ≡ ok b0)
      × (p.packettype ≡ rr)
      × (p.data' ≡ bytes)
      × (p.knownformat ≡ true ↔ Unpadded bytes b0 (8 + 24 * rtcp_count b0))
      × (p.knownformat ≡ true → ReportReads p (rtcp_count b0))
unfolding new_rr
new_rr_reads bytes h =
    let (b0, e0) = byte_at-lt bytes 0 h in
    let (o, eo, m) = strip_padding-StripMeans bytes b0 h in
    let known = known_report bytes b0 8 o m in
    let p : RtcpPacket = record (new_packet rr bytes) {
      knownformat = report_known 8 (rtcp_count b0) o;
    } in
    (
      p,
      b0,
      rw (e0, eo) refl,
      e0,
      refl,
      refl,
      known,
      λ k.
          block_reads p b0 8 k e0 (omega arith) (λ index. unfold goto_report in refl)
            (omega (arith, Unpadded-le bytes b0 (8 + 24 * rtcp_count b0) (known.0 k))),
    )

-- A sender report's own part is inside too.
sender_info_reads :
    (p : RtcpPacket) → p.knownformat ≡ true → 28 ≤ length p.data' → Returns (get_sender_info p)
unfolding get_sender_info
sender_info_reads p k h =
    let (a, ea) = u32_at-lt p.data' 8 (omega arith) in
    let (b, eb) = u32_at-lt p.data' 12 (omega arith) in
    let (c, ec) = u32_at-lt p.data' 16 (omega arith) in
    let (d, ed) = u32_at-lt p.data' 20 (omega arith) in
    let (e, ee) = u32_at-lt p.data' 24 (omega arith) in
    (
      record {
        ntptime_msw = a;
        ntptime_lsw = b;
        rtptimestamp = c;
        packetcount = d;
        octetcount = e;
      },
      rw (k, ea, eb, ec, ed, ee) refl,
    )

-- The constructor of RTCPSRPacket, on data with at least one byte, reads inside the data; it knows
-- the format exactly if the data less its padding is the header, the sender's SSRC and information
-- and the announced blocks, and then every accessor reads inside the data, the blocks' for each
-- announced block.
pub new_sr_reads :
    (bytes : List ℕ)
    → 0 < length bytes
    → (p : RtcpPacket) × (b0 : ℕ) × (new_sr bytes ≡ ok p)
      × (byte_at bytes 0 ≡ ok b0)
      × (p.packettype ≡ sr)
      × (p.data' ≡ bytes)
      × (p.knownformat ≡ true ↔ Unpadded bytes b0 (28 + 24 * rtcp_count b0))
      × (p.knownformat ≡ true → ReportReads p (rtcp_count b0) × Returns (get_sender_info p))
unfolding new_sr
new_sr_reads bytes h =
    let (b0, e0) = byte_at-lt bytes 0 h in
    let (o, eo, m) = strip_padding-StripMeans bytes b0 h in
    let known = known_report bytes b0 28 o m in
    let p : RtcpPacket = record (new_packet sr bytes) {
      knownformat = report_known 28 (rtcp_count b0) o;
    } in
    (
      p,
      b0,
      rw (e0, eo) refl,
      e0,
      refl,
      refl,
      known,
      λ k. (
        block_reads p b0 28 k e0 (omega arith) (λ index. unfold goto_report in refl)
            (Unpadded-le bytes b0 (28 + 24 * rtcp_count b0) (known.0 k)),
        sender_info_reads p k
            (omega (arith, Unpadded-le bytes b0 (28 + 24 * rtcp_count b0) (known.0 k))),
      ),
    )
