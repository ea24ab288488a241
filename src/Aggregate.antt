-- ===== src/Aggregate.antt =====
-- aggregate/: the runtime that loads an aggregate and handles its commands.
pub mod Runtime
pub mod Handle
pub mod Cache
