-- ===== src/Capability.antt =====
-- Capabilities: the windows in which a long text is read.
pub mod TextWindow
mod Tests
