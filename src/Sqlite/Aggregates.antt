-- ===== src/Sqlite/Aggregates.antt =====
-- The runtime of aggregate/runtime.go over the sqlite adapter: what Load finds after Handle.
pub mod Replay
pub mod Encoded
pub mod Cached
pub mod Handled
pub mod Continues
pub mod LoadHandle
