-- ===== src/Sqlite.antt =====
-- adapters/storage/sqlite: the storage adapter over SQLite. The tables are lists of rows in the
-- order of their insertion, and each generated query of internal/db is a function on them.
pub mod Tables
pub mod Append
pub mod Read
pub mod Sound
pub mod Tail
pub mod Outbox
pub mod Heads
pub mod Dlq
pub mod Adapter
pub mod EventLog
pub mod Aggregates
pub mod Processed
