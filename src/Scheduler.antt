-- ===== src/Scheduler.antt =====
-- The scheduler's stages and its tick (apps/scheduler/src).
pub mod Retry
pub mod Promote
pub mod Entries
pub mod Reconcile
pub mod Workers
pub mod Reindex
pub mod Tick
