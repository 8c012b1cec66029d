-- ===== src/Tests.antt =====
-- Concrete engines, books and orders, and the theorems at them.
pub mod Sample
pub mod Parameters
pub mod Server
pub mod Races
pub mod Stores
pub mod Calls
pub mod Books
pub mod Parts
