-- ===== src/Source.antt =====
-- What is kept of one participant: rtpsourcedata.h, rtpsourcedata.cpp, rtpinternalsourcedata.h and
-- rtpinternalsourcedata.cpp.
pub mod Doubles
pub mod Stats
pub mod Extension
pub mod Probation
pub mod Jitter
pub mod Data
pub mod Insertion
pub mod Queue
pub mod Delivery
