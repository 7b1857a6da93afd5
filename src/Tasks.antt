-- ===== src/Tasks.antt =====
-- src/collectors/: the thirteen collectors, and TASK_REGISTRY of run.py.
pub mod Context
pub mod Mapped
pub mod Blocking
pub mod Concurrency
pub mod Health
pub mod IndexOps
pub mod IoLatency
pub mod Storage
pub mod TableAccess
pub mod Waits
pub mod Cpu
pub mod QueryPerf
pub mod Grouping
pub mod Sessions
pub mod Workload
pub mod Deadlocks
pub mod Registry
