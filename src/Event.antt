-- ===== src/Event.antt =====
-- protocols/events.py, core/events and providers/events: the event log of a session.
pub mod Types
pub mod Record
pub mod Store
pub mod Gate
mod Tests
