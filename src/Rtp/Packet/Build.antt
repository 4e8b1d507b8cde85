-- ===== src/Rtp/Packet/Build.antt =====
-- RTPPacket::BuildPacket and the two constructors that call it. A memcpy reads its source list,
-- and faults where that is too short. `size_t` sums do not wrap: the data lies in memory.
use jrtplib.Prelude.{
  ℕ, zero, suc, ◌+◌, ◌*◌, ◌%◌, Bool, true, false, ◌&&◌, ◌||◌, not, List, [], ◌∷◌, ◌++◌, none, bit,
  length, ltb, ◌==◌, if◌then◌else◌, Outcome, ok, err, fault, ◌>>=◌, out_of_mem, packet_toomanycsrcs,
  packet_badpayloadtype, packet_dataexceedsmaxsize, packet_externalbuffernull,
  packet_illegalbuffersize,
}
use jrtplib.Bytes.{put_u16, put_u32, bytes_at}
use jrtplib.Rtp.Packet.{RtpPacket}

-- The arguments that both constructors share; `payloadlen` is the length of `payloaddata`.
pub record BuildArgs : Type 0 where
  pub payloadtype : ℕ
  pub payloaddata : List ℕ
  pub seqnr : ℕ
  pub timestamp : ℕ
  pub ssrc : ℕ
  pub gotmarker : Bool
  pub numcsrcs : ℕ
  pub csrcs : List ℕ
  pub gotextension : Bool
  pub extensionid : ℕ
  pub extensionlen_numwords : ℕ
  pub extensiondata : List ℕ

-- Where the packet goes: into memory that RTPNew gives or refuses, or into the caller's buffer.
pub data Target : Type 0 where
  allocated : Bool → Target
  external_buffer : Target

abbrev is_external : Target → Bool
is_external (allocated given) = false
is_external external_buffer = true

abbrev has_memory : Target → Bool
has_memory (allocated given) = given
has_memory external_buffer = true

unfoldable pub packet_length : BuildArgs → ℕ
packet_length a =
    12
    + 4 * a.numcsrcs
    + (if a.gotextension then 4 + 4 * a.extensionlen_numwords else 0)
    + length a.payloaddata

-- The 12 bytes of the RTPHeader, bit fields cut to their widths.
unfoldable pub header_bytes : BuildArgs → List ℕ
unfolding put_u16 put_u32
header_bytes a =
    (2 * 64 + bit a.gotextension * 16 + a.numcsrcs % 16)
    ∷ (bit a.gotmarker * 128 + a.payloadtype % 128)
    ∷ (put_u16 a.seqnr ++ (put_u32 a.timestamp ++ put_u32 a.ssrc))

-- The first `n` entries of the CSRC array in network byte order.
unfoldable pub csrc_bytes : ℕ → List ℕ → Outcome (List ℕ)
unfolding put_u32
csrc_bytes zero csrcs = ok []
csrc_bytes (suc n) [] = fault
csrc_bytes (suc n) (c ∷ csrcs) = do rest ← csrc_bytes n csrcs; ok (put_u32 c ++ rest)

unfoldable pub extension_bytes : BuildArgs → Outcome (List ℕ)
unfolding put_u16 bytes_at
extension_bytes a =
    if a.gotextension
    then (do
      body ← bytes_at a.extensiondata 0 (4 * a.extensionlen_numwords)
      ok (put_u16 a.extensionid ++ (put_u16 a.extensionlen_numwords ++ body)))
    else ok []

-- Filling in the members and the memory. `extension` is not set.
unfoldable pub fill_packet : BuildArgs → Target → Outcome RtpPacket
unfolding header_bytes csrc_bytes extension_bytes
fill_packet a target = do
  csrcs ← csrc_bytes a.numcsrcs a.csrcs
  ext ← extension_bytes a
  ok (record {
    hasextension = a.gotextension;
    hasmarker = a.gotmarker;
    numcsrcs = a.numcsrcs;
    payloadtype = a.payloadtype;
    extseqnr = a.seqnr;
    timestamp = a.timestamp;
    ssrc = a.ssrc;
    packet = header_bytes a ++ (csrcs ++ (ext ++ a.payloaddata));
    payload = 12 + 4 * a.numcsrcs + (if a.gotextension then 4 + 4 * a.extensionlen_numwords else 0);
    payloadlength = length a.payloaddata;
    extid = a.extensionid;
    extension = none;
    extensionlength = 4 * a.extensionlen_numwords;
    externalbuffer = is_external target;
  })

unfoldable pub build_packet : BuildArgs → Target → ℕ → Outcome RtpPacket
unfolding packet_length fill_packet
build_packet a target maxsize =
    if ltb 15 a.numcsrcs
    then err packet_toomanycsrcs
    else if ltb 127 a.payloadtype || (a.payloadtype == 72 || a.payloadtype == 73)
    then err packet_badpayloadtype
    else if ltb 0 maxsize && ltb maxsize (packet_length a)
    then err packet_dataexceedsmaxsize
    else if has_memory target
    then fill_packet a target
    else err out_of_mem

-- The constructor that allocates; `given` is whether RTPNew finds memory.
unfoldable pub new_packet : BuildArgs → Bool → ℕ → Outcome RtpPacket
unfolding build_packet
new_packet a given maxpacksize = build_packet a (allocated given) maxpacksize

-- The constructor that is handed a buffer, which may be null.
unfoldable pub new_packet_in_buffer :
    BuildArgs → (bufferset : Bool) → (buffersize : ℕ) → Outcome RtpPacket
unfolding build_packet
new_packet_in_buffer a bufferset buffersize =
    if not bufferset
    then err packet_externalbuffernull
    else if buffersize == 0
    then err packet_illegalbuffersize
    else build_packet a external_buffer buffersize
