-- ===== src/Tests.antt =====
-- A small auction house, and the theorems applied to it.
pub mod House
pub mod Money
pub mod Accounts
pub mod Network
pub mod Whole
pub mod Keyboard
pub mod History
pub mod Evening
