-- ===== src/Storage.antt =====
-- include/storage and src/storage: PostgreSQL and Redis.
pub mod Numbers
pub mod Libpq
pub mod Connection
pub mod Repository
pub mod Port
pub mod Redis
pub mod CliPostgres
