-- ===== src/Domain.antt =====
-- The domain model: include/domain and src/domain.
pub mod Decimal
pub mod Calendar
pub mod Timestamps
pub mod MarketData
pub mod Validation
