-- ===== src/Host.antt =====
-- urp/host.py: `URPHost`.
mod Defs
pub mod Writing
pub mod Starting
pub mod Sessions
pub mod Queue
unfoldable pub use Defs.*
