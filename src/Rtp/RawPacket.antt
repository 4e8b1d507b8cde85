-- ===== src/Rtp/RawPacket.antt =====
-- RTPRawPacket (src/rtprawpacket.h): the bytes that a transmitter received, and whether they are
-- RTP or RTCP data. The sender's address and the receive time are only carried along, and are left
-- out; so is the release of memory.
use jrtplib.Prelude.{
  ℕ, Bool, true, not, List, [], length, leb, ltb, ◌&&◌, Outcome, ok, ◌>>=◌, if◌then◌else◌,
}
use jrtplib.Bytes.{byte_at}

pub record RawPacket : Type 0 where
  pub packetdata : List ℕ
  pub isrtp : Bool

-- The constructor that is told the kind of data.
abbrev pub raw_packet : List ℕ → Bool → RawPacket
raw_packet bytes rtp = record { packetdata = bytes; isrtp = rtp }

-- The constructor that finds the kind of data by the packet type, the second byte of the header.
unfoldable pub raw_packet_by_header : List ℕ → Outcome RawPacket
unfolding byte_at
raw_packet_by_header bytes = if ltb (length bytes) 4 then ok (raw_packet bytes true) else (do
  packettype ← byte_at bytes 1
  ok (raw_packet bytes (not (leb 200 packettype && leb packettype 204))))

pub zero_data : RawPacket → RawPacket
zero_data r = record r { packetdata = [] }

pub set_data : RawPacket → List ℕ → RawPacket
set_data r bytes = record r { packetdata = bytes }
