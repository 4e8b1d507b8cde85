-- ===== src/Lib.antt =====
-- Verification library of JRTPLIB, a C++ library for the Real-time Transport Protocol (RFC 3550).
--
-- A sender's data goes through an RTPPacketBuilder (src/rtppacketbuilder.cpp), which makes an
-- RTPPacket (src/rtppacket.cpp) of each call and keeps the buffer that is sent. A receiver makes an
-- RTPPacket of each RTPRawPacket (src/rtprawpacket.h) that a transmitter hands it and gives it to the
-- source data of its sender (src/rtpinternalsourcedata.cpp), whose statistics (src/rtpsourcedata.cpp)
-- validate the source and extend the sequence number, and whose queue hands the packets to the
-- application. Received RTCP data becomes an RTCPCompoundPacket (src/rtcpcompoundpacket.cpp), a list
-- of packets of the five kinds; SDES items end in an RTCPSDESInfo (src/rtcpsdesinfo.cpp) of the source.
-- An RTCPCompoundPacketBuilder (src/rtcpcompoundpacketbuilder.cpp) writes the RTCP data that is sent.
-- The sources are kept in the table of RTPSources (src/rtpsources.cpp), which counts them, knows the
-- application's own one and times the silent ones out. An RTCPScheduler (src/rtcpscheduler.cpp)
-- decides from these counts when the next RTCP packet is sent. The addresses that cause SSRC
-- collisions are kept in an RTPCollisionList (src/rtpcollisionlist.cpp).
--
-- Files and what they model, each with the theorems in the files of its directory:
--   Prelude, Bytes      numbers, lists, outcomes of a call; memory as a list of bytes, in which a read
--                       outside is a fault; ntohs, ntohl, htons, htonl
--   Rtp/RawPacket       RTPRawPacket
--   Rtp/Packet          RTPPacket; Parse is ParseRawPacket, Build is BuildPacket
--   Builder             RTPPacketBuilder, one function per method; Calls are BuildPacket and
--                       BuildPacketEx, Stream has the runs of calls
--   Sdes                RTCPSDESInfo
--   Source/Stats        RTPSourceStats::ProcessPacket
--   Source/Data         RTPInternalSourceData: ProcessRTPPacket, ProcessSDESItem,
--                       ProcessPrivateSDESItem, ProcessBYEPacket, and RTPSourceData::GetNextPacket,
--                       with runs of it in Source/Delivery
--   Source/Doubles      the double arithmetic that the statistics and the table use, a parameter
--   Sources             RTPSources: the own source, ObtainSourceDataInstance, the CSRC loop of
--                       ProcessRTPPacket, and the timeouts; Runs has the runs of calls
--   Scheduler           RTCPScheduler and RTCPSchedulerParams; Runs has the runs of calls
--   Rtcp/Packet         RTCPRRPacket, RTCPSRPacket, RTCPBYEPacket, RTCPAPPPacket, RTCPUnknownPacket;
--                       Fields are their accessors
--   Rtcp/Sdes           the constructor of RTCPSDESPacket; Iterate is the iteration over its chunks and
--                       items with the accessors
--   Rtcp/Compound       RTCPCompoundPacket::ParseData, the constructors and the iteration
--   Rtcp/CompoundBuilder
--                       RTCPCompoundPacketBuilder: its state and the sizes it reckons with; Reports,
--                       Descriptions and Farewell are the calls that add, End is EndBuild;
--                       WellFormed has the runs of calls
--   Collisions          RTPCollisionList
--   Tests               runs on concrete data
--
-- Conventions: a method is a function from the object (a record of its members) and its arguments to
-- the new object and the status; an error code is a value of ErrorCode, 0 is `ok tt`. Fixed-width
-- numbers are natural numbers with their wrap-around written out. The build is the default one for a
-- little-endian 64-bit machine, with probation and private SDES items compiled in. Whether an
-- allocation succeeds, random numbers and the clock are arguments. A packet's memory is its own list
-- of bytes, so that a read behind its end counts as a fault.
--
-- Fuel: the loops of the RTCP parsers run on fuel, the compound parser on the length of its data and
-- the loop over the items of a chunk on the bytes that are left; each round uses up at least one byte.
-- Without fuel they fault. The loops over the items of an RTCPSDESPacket run on the length of its data
-- and, over the chunks, on 31 rounds, the largest count of a header. EndBuild's loops take 31 report
-- blocks or sources a round and run on the number of these. CreateNewSSRC of the packet builder takes
-- the list of its random draws.
--
-- Not modelled: the hash tables (src/rtphashtable.h, src/rtpkeyhashtable.h), of which the table of
-- sources is the list of elements; the collision check, the other processing of packets and the
-- iteration of RTPSources; the RTCP packet builder (src/rtcppacketbuilder.cpp), and the session and its
-- threads (src/rtpsession.cpp); the transmitters, addresses, clocks and random devices, which are
-- system calls; memory management, error texts and debug output.
pub mod Prelude
pub mod Bytes
pub mod Rtp
pub mod Builder
pub mod Sdes
pub mod Source
pub mod Sources
pub mod Scheduler
pub mod Rtcp
pub mod Collisions
mod Tests
