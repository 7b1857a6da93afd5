-- ===== src/Db.antt =====
-- src/db.py: credentials, connection strings, queries and the log of runs.
pub mod Connection
pub mod Server
pub mod Calls
pub mod Merge
pub mod Query
