-- ===== src/Store.antt =====
-- internal/store: the implementations of `shortener.Repository`.
pub mod Contract
pub mod Faults
pub mod Memory
pub mod Cached
pub mod Postgres
pub mod Redis
pub mod Either
