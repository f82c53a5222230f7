-- ===== src/Barq.antt =====
-- The BARQ transport: include/barq.hpp and src/barq.cpp.
pub mod Header
pub mod Copy
pub mod Writer
pub mod Reader
pub mod Valid
pub mod Write
pub mod Read
pub mod Stores
pub mod Overlap
pub mod Init
pub mod Release
pub mod Session
pub mod Tests
