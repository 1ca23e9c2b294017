-- ===== src/Sdk.antt =====
-- urp/sdk_agent.py: `SDKURPAgent`.
mod Defs
pub mod Frame
pub mod Replies
pub mod Opening
pub mod Conversing
unfoldable pub use Defs.*
