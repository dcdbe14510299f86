-- ===== src/Control.antt =====
-- src/ctx_weft/core/control: the state of a session, rebuilt from its events.
pub mod StatusMaps
pub mod Views
pub mod Blob
pub mod Hitl
pub mod Apply
pub mod Reduce
pub mod Prune
pub mod Snapshot
pub mod Settling
mod Tests
