-- ===== src/Es.antt =====
-- es/: the framework's core types.
pub mod Error
pub mod StreamId
pub mod Envelope
pub mod Wire
pub mod Chain
