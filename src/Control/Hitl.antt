-- ===== src/Control/Hitl.antt =====
-- src/ctx_weft/core/control/reducers.py, `apply_hitl_event` and `fold_hitl_snapshot`: what the events of a
-- session leave of its human requests.
pub mod Request
pub mod Legacy
pub mod Fold
pub mod Consistent
pub mod Preservation
pub mod Closing
pub mod Closed
mod Tests
