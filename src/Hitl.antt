-- ===== src/Hitl.antt =====
-- Requests for a human's decision.
pub mod Contract
pub mod Record
pub mod Snapshot
pub mod Registry
pub mod Claim
pub mod Final
pub mod Opening
pub mod Newest
pub mod Loading
pub mod Removal
pub mod Decisions
mod Tests
