-- ===== src/Domain.antt =====
-- The domain types (src/domain).
pub mod Market
pub mod Order
