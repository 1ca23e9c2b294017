-- ===== src/Agent.antt =====
-- urp/abstract_urp.py.
mod State
mod Hooks
mod Events
mod Lifecycle
mod Handling
mod Loop
mod Operations
pub mod Emitting
pub mod Frame
pub mod Keeping
pub mod Work
pub mod Rounds
pub mod Edges
pub mod Coherence
pub mod Waking
pub mod Shutdown
pub mod Stepping
pub mod Once
pub mod Terminated
pub mod Taking
pub mod Queues
pub mod Drains
pub mod Order
pub mod Opening
pub mod Bounds
pub mod Draining
pub mod Founding
pub mod Founded
pub mod Verdict
pub mod Answers
unfoldable pub use State.*
unfoldable pub use Hooks.*
unfoldable pub use Events.*
unfoldable pub use Lifecycle.*
unfoldable pub use Handling.*
unfoldable pub use Loop.*
unfoldable pub use Operations.*
