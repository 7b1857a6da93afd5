-- ===== src/Sql.antt =====
-- The scripts of sql that run on the repository.
pub mod Retention
