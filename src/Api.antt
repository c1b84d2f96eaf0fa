-- ===== src/Api.antt =====
-- The market data source: include/api and src/api.
pub mod Json
pub mod AlphaVantage
