-- ===== src/Domain.antt =====
-- internal/domain: the pure rules of the pipeline.
pub mod State
pub mod Pending
pub mod Completion
pub mod Stability
pub mod Limits
