-- ===== src/Tests.antt =====
-- Runs of the definitions and the theorems at concrete data.
mod Data
mod Runs
mod Rows
mod Checks
mod Fetches
mod Sources
mod Logs
mod Program
mod Deadlocks
mod Retry
mod Retention
