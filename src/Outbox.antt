-- ===== src/Outbox.antt =====
-- The outbox and its publisher (apps/api/src/outbox).
pub mod Rows
pub mod Publisher
pub mod Batch
pub mod Attempts
pub mod Delivery
pub mod Runs
pub mod Served
