-- ===== src/Control/Apply.antt =====
-- src/ctx_weft/core/control/reducers.py, `_apply`: what one event changes in the state of a session. The
-- children follow the branches of the source. A payload whose entry has another type than the source
-- writes there has no result.
pub mod Update
pub mod Observe
pub mod Runs
pub mod Sessions
pub mod Agents
pub mod Created
pub mod Statuses
pub mod Event
pub mod Growth
