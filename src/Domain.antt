-- ===== src/Domain.antt =====
-- internal/domain/status.go: the lifecycles of tasks, requests, grants, executions, reclaims.
pub mod Values
pub mod Catalog
pub mod Accounts
pub mod Task
pub mod Request
pub mod Execution
pub mod Reclaim
pub mod Grant
pub mod Paths
