-- ===== src/Core.antt =====
-- The market data types and the in-memory order book: include/core and src/core/order_book.cpp.
pub mod Double
pub mod Types
pub mod Levels
pub mod OrderBook
