-- ===== src/Base/Value.antt =====
-- The dynamic values of the source (`Any`, event payloads, tool outputs). Numbers are the
-- integers: `num` for those from 0 on, the only ones that the modelled code writes, and `negative` for
-- those below, which it may read. Floating-point numbers are left out.
mod Equality
pub mod Reading
unfoldable pub use Equality.*
