-- ===== src/Projection.antt =====
-- projection/: the projector that feeds a read model from the store.
pub mod Runtime
pub mod Batch
pub mod Dedup
