-- ===== src/Storage.antt =====
-- internal/storage
pub mod Rows
pub mod Database
pub mod Interface
pub mod Sqlite
pub mod Postgres
pub mod Contract
pub mod RoundTrip
pub mod Open
