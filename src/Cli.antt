-- ===== src/Cli.antt =====
-- The command line: include/cli and src/cli.
pub mod Metrics
pub mod Parse
pub mod Postgres
pub mod Book
pub mod Services
pub mod Wiring
pub mod Monad
pub mod Fetch
pub mod Commands
pub mod Tables
pub mod Lines
