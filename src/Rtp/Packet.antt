-- ===== src/Rtp/Packet.antt =====
-- RTPPacket (src/rtppacket.h, src/rtppacket.cpp): parsing a received packet and building one.
-- A pointer into the packet's memory is an offset from its first byte, a null pointer `none`. A
-- constructor gives the object, or the code that GetCreationError returns for an object whose
-- other members Clear has set.
pub mod Parse
pub mod Build
pub mod Layout
pub mod Bounds
pub mod Overread
pub mod RoundTrip
use jrtplib.Prelude.{
  ℕ, ◌+◌, ◌*◌, ◌%◌, Bool, List, Option, none, some, Outcome, ok, leb, if◌then◌else◌,
}
use jrtplib.Bytes.{u32_at, bytes_at}

pub record RtpPacket : Type 0 where
  pub hasextension : Bool
  pub hasmarker : Bool
  pub numcsrcs : ℕ
  pub payloadtype : ℕ
  pub extseqnr : ℕ
  pub timestamp : ℕ
  pub ssrc : ℕ
  -- The memory at `packet`, `packetlength` bytes of it.
  pub packet : List ℕ
  pub payload : ℕ
  pub payloadlength : ℕ
  pub extid : ℕ
  pub extension : Option ℕ
  pub extensionlength : ℕ
  pub externalbuffer : Bool

unfoldable pub get_csrc : RtpPacket → ℕ → Outcome ℕ
get_csrc p num = if leb p.numcsrcs num then ok 0 else u32_at p.packet (12 + num * 4)

unfoldable pub get_sequence_number : RtpPacket → ℕ
get_sequence_number p = p.extseqnr % 65536

-- The `GetPayloadLength()` bytes at `GetPayloadData()`.
unfoldable pub payload_bytes : RtpPacket → Outcome (List ℕ)
payload_bytes p = bytes_at p.packet p.payload p.payloadlength

-- The `GetExtensionLength()` bytes at `GetExtensionData()`, if that is no null pointer.
unfoldable pub extension_bytes : RtpPacket → Option (Outcome (List ℕ))
extension_bytes p = elim p.extension [
  | none ↦ none
  | some at ↦ some (bytes_at p.packet at p.extensionlength)
]
