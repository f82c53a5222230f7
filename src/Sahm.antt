-- ===== src/Sahm.antt =====
-- The SAHM transport: include/sahm.hpp and src/sahm.cpp.
pub mod Ring
pub mod Control
pub mod Writer
pub mod Reader
pub mod History
pub mod Latest
pub mod Delivery
pub mod Repeat
pub mod Shape
pub mod Stores
pub mod InPlace
pub mod Register
pub mod Membership
pub mod Release
pub mod Start
pub mod Tests
