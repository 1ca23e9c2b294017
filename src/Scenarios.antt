-- ===== src/Scenarios.antt =====
-- Concrete runtimes, clients and packages, at which the theorems are applied, and tests of the
-- methods.
pub mod Bus
pub mod Mail
mod Agents
mod Schedules
mod Servers
mod Folders
mod Served
mod Echoes
mod Registries
mod Tables
mod Hosts
mod Handles
mod Conversations
mod Saves
mod Pages
