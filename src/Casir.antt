-- ===== src/Casir.antt =====
-- The CASIR transport: include/casir.hpp and src/casir.cpp.
pub mod Header
pub mod Config
pub mod Writer
pub mod Reader
pub mod Valid
pub mod Write
pub mod Read
pub mod Session
pub mod Wait
pub mod ZeroCopy
pub mod Init
pub mod Alive
pub mod Release
pub mod Tests
