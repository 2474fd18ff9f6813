-- ===== src/Operation.antt =====
-- internal/operation: schemas, templates and the operations that they resolve to.
pub mod Text
pub mod Outcome
pub mod Literals
pub mod Schema
pub mod Arguments
pub mod Path
pub mod Template
pub mod Documents
pub mod Headers
pub mod Http
pub mod Compile
