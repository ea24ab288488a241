-- ===== src/Examples.antt =====
-- examples/: aggregates written for the runtime.
pub mod Order
