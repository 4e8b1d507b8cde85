-- ===== src/Rtcp.antt =====
-- Received RTCP packets: rtcppacket.h, rtcpsrpacket.h/.cpp, rtcprrpacket.h/.cpp, rtcpbyepacket.h/.cpp,
-- rtcpapppacket.h/.cpp, rtcpsdespacket.h/.cpp, rtcpunknownpacket.h and rtcpcompoundpacket.h/.cpp.
pub mod Packet
pub mod Sdes
pub mod Compound
pub mod CompoundBuilder
