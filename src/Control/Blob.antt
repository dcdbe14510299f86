-- ===== src/Control/Blob.antt =====
-- src/ctx_weft/core/control/reducers.py, `serialize_view` and `deserialize_view`: a view as JSON, and
-- back. The texts of times are those of Python's `datetime`, a parameter. A read whose value has
-- another type than the source writes is none here.
pub mod Times
pub mod Sessions
pub mod Tasks
pub mod Agents
pub mod Decisions
pub mod Requests
pub mod Snapshots
pub mod Rebuilt
pub mod Whole
