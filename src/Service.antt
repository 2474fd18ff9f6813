-- ===== src/Service.antt =====
-- The services over the repositories: identity, authorization, lifecycle, tasks.
pub mod Identity
pub mod Agents
pub mod Approvals
pub mod Lifecycle
pub mod Tasks
pub mod Catalog
