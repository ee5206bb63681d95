-- ===== src/Invites.antt =====
-- src/invite_storage.rs with the tables of migrations/0001_invites.sql: the rows (Schema), the
-- statements and transactions of SQLite that the code uses (Sql), the repository's operations
-- (Repository), and what they guarantee (the other modules).
pub mod Schema
pub mod Sql
pub mod Repository
pub mod Rows
pub mod Spec
pub mod Atomicity
pub mod Log
pub mod Audit
pub mod Histories
pub mod SingleUse
pub mod Revocation
pub mod Retention
pub mod Lookup
pub mod Recent
mod Tests
