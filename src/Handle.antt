-- ===== src/Handle.antt =====
-- urp/agent_key.py: the identity of agents and the handles that clients hold.
mod Defs
pub mod Sending
pub mod Snapshots
pub mod Identity
unfoldable pub use Defs.*
