-- ===== src/Usecase.antt =====
-- internal/usecase: the stages of a polling cycle and the commands over the same stores.
pub mod Pipeline
pub mod Collect
pub mod Fanout
pub mod Retry
pub mod Retention
pub mod Replay
pub mod Status
pub mod Cycle
pub mod Fenced
pub mod Keeps
