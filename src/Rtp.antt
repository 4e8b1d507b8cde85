-- ===== src/Rtp.antt =====
-- RTP packets: rtpstructs.h, rtprawpacket.h, rtppacket.h and rtppacket.cpp.
pub mod RawPacket
pub mod Packet
