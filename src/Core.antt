-- ===== src/Core.antt =====
-- kernel/core: tasks and their scheduling.
pub mod Tasks
pub mod RunQueue
pub mod Sched
pub mod Samples
