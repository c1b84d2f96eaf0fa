-- ===== src/Tests.antt =====
-- Tests and examples: each property at a concrete input.
pub mod Doubles
pub mod Decimals
pub mod Rows
pub mod Books
pub mod Commands
pub mod Fetches
pub mod Databases
pub mod Terminal
pub mod Statistics
pub mod Sources
pub mod Servers
pub mod Sinks
pub mod Programs
pub mod Losses
pub mod Owners
