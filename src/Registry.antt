-- ===== src/Registry.antt =====
-- urp/agent_registry.py. The global registry and the class `AgentRegistry` are two copies of one
-- component that differ in the texts of their errors; a scope carries these texts. Every method
-- holds the lock while it touches the registry, so its steps on the registry are atomic.
mod Defs
pub mod Global
pub mod Laws
pub mod Naming
pub mod Creation
pub mod Runs
pub mod Table
pub mod Refinement
unfoldable pub use Defs.*
