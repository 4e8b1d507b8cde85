-- ===== src/Tests.antt =====
-- Runs of the code on concrete data, and the theorems at concrete inputs.
mod Packet
mod Builder
mod Source
mod Sources
mod Scheduler
mod Rtcp
mod CompoundBuilder
mod Sdes
