-- ===== src/Outbox.antt =====
-- outbox/: the drain that hands the rows of the outbox to a publisher.
pub mod Backoff
pub mod Drain
pub mod Run
pub mod Halting
pub mod Order
