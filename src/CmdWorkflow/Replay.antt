-- ===== src/CmdWorkflow/Replay.antt =====
-- A replay of HandleCmd in cmdworkflow/bus.go on a durable engine.
pub mod Policies
pub mod Start
pub mod Whole
pub mod Replayed
