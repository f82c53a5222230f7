-- ===== src/Sim.antt =====
-- The SIM transport: include/sim.hpp and src/sim.cpp.
pub mod Checksum
pub mod Corruption
pub mod Header
pub mod Writer
pub mod Reader
pub mod Valid
pub mod Write
pub mod Read
pub mod Roundtrip
pub mod Init
pub mod Lifecycle
pub mod Session
pub mod Wait
pub mod Stores
pub mod Overlap
pub mod Tests
