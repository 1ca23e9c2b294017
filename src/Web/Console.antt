-- ===== src/Web/Console.antt =====
-- The page that urp/web_server.py serves: its script.
mod Defs
mod Handlers
pub mod Site
pub mod Keeping
pub mod Sending
pub mod Starting
mod Events
pub mod Forming
pub mod Acting
pub mod Sessions
unfoldable pub use Defs.*
unfoldable pub use Handlers.*
unfoldable pub use Events.*
