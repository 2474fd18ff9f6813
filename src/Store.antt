-- ===== src/Store.antt =====
-- internal/store: the repositories over PostgreSQL.
pub mod Tables
pub mod Action
pub mod Statements
pub mod Keys
pub mod Evolution
pub mod Accounts
pub mod Catalog
pub mod Tasks
pub mod Authorization
pub mod Claims
pub mod Execution
pub mod Recovery
pub mod Lifecycle
pub mod History
