-- ===== src/Task.antt =====
-- core/orchestrator/task and core/models: the tasks of a session and how they are scheduled.
pub mod Status
pub mod Verdict
pub mod Model
pub mod Queue
pub mod Disposition
pub mod Outcome
pub mod Threshold
mod Tests
