-- ===== src/Sources.antt =====
-- Sources, the inventories that are collected for them, and the agents that collect these.
pub mod Store
pub mod Agents
pub mod Uploads
pub mod Rows
pub mod Keeping
pub mod Calls
pub mod Failures
pub mod Tokens
pub mod Subsets
pub mod Replacing
pub mod Handlers
pub mod AgentHandlers
pub mod Isolation
pub mod Samples
mod Scenarios
