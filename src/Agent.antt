-- ===== src/Agent.antt =====
-- core/orchestrator/lifecycle: the agents of a session.
pub mod State
pub mod Machine
mod Tests
