-- ===== src/Web.antt =====
-- urp/web_server.py.
mod Conversations
mod Browsing
mod Endpoints
mod Socket
pub mod Delivery
pub mod Logging
pub mod Echoing
pub mod Listing
pub mod Saving
pub mod Console
pub mod Serving
pub mod Answers
pub mod Requests
unfoldable pub use Conversations.*
unfoldable pub use Browsing.*
unfoldable pub use Socket.*
unfoldable pub use Endpoints.*
