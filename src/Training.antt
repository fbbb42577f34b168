-- ===== src/Training.antt =====
-- Training jobs in the API (apps/api/src/training).
pub mod Machine
pub mod Service
