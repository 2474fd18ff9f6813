-- ===== src/Proxy.antt =====
-- internal/proxy: the execution plane. A claimed grant is run with the target's credential.
pub mod Plan
pub mod Machine
pub mod Vault
pub mod Prepare
pub mod Sign
pub mod Redactor
pub mod Http
pub mod Postgres
pub mod Server
pub mod Uses
pub mod Loads
pub mod Authorized
pub mod Serves
pub mod Answers
pub mod Finishes
pub mod Batches
pub mod Patterns
