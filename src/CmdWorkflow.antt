-- ===== src/CmdWorkflow.antt =====
-- cmdworkflow/: the command bus with its subscribers, and the runtime that it runs its steps on.
pub mod Act
pub mod Subscriber
pub mod Codec
pub mod Bus
pub mod Futures
pub mod Dispatch
pub mod HandleCmd
pub mod Retries
pub mod Durable
pub mod Replay
pub mod Batch
pub mod Inproc
pub mod Registered
