-- ===== src/Prelude.antt =====
-- The names that the other modules share: the libraries', passed on, the tests, the tables.
pub mod Tests
pub mod Rows
pub mod Same
pub mod Evolves
pub mod Finds
pub mod Int
