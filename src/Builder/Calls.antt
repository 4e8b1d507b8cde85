-- ===== src/Builder/Calls.antt =====
-- BuildPacket, BuildPacketEx and PrivateBuildPacket of RTPPacketBuilder (src/rtppacketbuilder.cpp).
use jrtplib.Prelude.{
  ℕ, ◌+◌, ◌%◌, ◌^◌, Bool, true, not, ◌||◌, List, ◌++◌, length, drop, ◌==◌, if◌then◌else◌, ok, err,
  fault, packbuild_defaultmarknotset, packbuild_defaultpayloadtypenotset,
  packbuild_defaulttsincnotset, packbuild_notinit,
}
use jrtplib.Rtp.Packet.{RtpPacket}
use jrtplib.Rtp.Packet.Build.{BuildArgs, new_packet_in_buffer}
use jrtplib.Builder.{PacketBuilder, Status}

-- The data and the header extension of one call of BuildPacket or BuildPacketEx.
pub record Payload : Type 0 where
  pub bytes : List ℕ
  pub gotextension : Bool
  pub hdrext_id : ℕ
  pub hdrext_words : ℕ
  pub hdrext_bytes : List ℕ

module _ {Time : Type 0} where
  unfoldable pub builder_args : PacketBuilder Time → Payload → (pt : ℕ) → (mark : Bool) → BuildArgs
  builder_args b d pt mark = record {
    payloadtype = pt;
    payloaddata = d.bytes;
    seqnr = b.seqnr;
    timestamp = b.timestamp;
    ssrc = b.ssrc;
    gotmarker = mark;
    numcsrcs = b.numcsrcs;
    csrcs = b.csrcs;
    gotextension = d.gotextension;
    extensionid = d.hdrext_id;
    extensionlen_numwords = d.hdrext_words % 65536;
    extensiondata = d.hdrext_bytes;
  }

  -- The times of the first packet of a new RTP timestamp are remembered.
  unfoldable pub note_time : PacketBuilder Time → Time → PacketBuilder Time
  note_time b now =
      if b.numpackets == 0 || not (b.timestamp == b.prevrtptimestamp)
      then record b {
        lastwallclocktime = now;
        lastrtptimestamp = b.timestamp;
        prevrtptimestamp = b.timestamp;
      }
      else b

  -- What PrivateBuildPacket does once the packet stands in the buffer.
  unfoldable pub packet_built : PacketBuilder Time → RtpPacket → ℕ → Time → PacketBuilder Time
  unfolding note_time
  packet_built b p timestampinc now = record (note_time b now) {
    buffer = p.packet ++ drop (length p.packet) b.buffer;
    packetlength = length p.packet;
    numpayloadbytes = (b.numpayloadbytes + p.payloadlength) % 2 ^ 32;
    numpackets = (b.numpackets + 1) % 2 ^ 32;
    timestamp = (b.timestamp + timestampinc) % 2 ^ 32;
    seqnr = (b.seqnr + 1) % 65536;
  }

  unfoldable pub private_build_packet :
      PacketBuilder Time → Payload → ℕ → Bool → ℕ → Time → PacketBuilder Time × Status
  private_build_packet b d pt mark timestampinc now =
      elim (new_packet_in_buffer (builder_args b d pt mark) true b.maxpacksize) [
        | ok p ↦ (packet_built b p timestampinc now, ok tt)
        | err e ↦ (b, err e)
        | fault ↦ (b, fault)
      ]

  -- BuildPacket and BuildPacketEx with the type, the mark and the increment given.
  unfoldable pub build_packet_with :
      PacketBuilder Time → Payload → ℕ → Bool → ℕ → Time → PacketBuilder Time × Status
  build_packet_with b d pt mark timestampinc now =
      if not b.init
      then (b, err packbuild_notinit)
      else private_build_packet b d pt mark timestampinc now

  -- BuildPacket and BuildPacketEx with the defaults.
  unfoldable pub build_packet_default :
      PacketBuilder Time → Payload → Time → PacketBuilder Time × Status
  build_packet_default b d now =
      if not b.init
      then (b, err packbuild_notinit)
      else if not b.defptset
      then (b, err packbuild_defaultpayloadtypenotset)
      else if not b.defmarkset
      then (b, err packbuild_defaultmarknotset)
      else if not b.deftsset
      then (b, err packbuild_defaulttsincnotset)
      else private_build_packet b d b.defaultpayloadtype b.defaultmark b.defaulttimestampinc now
