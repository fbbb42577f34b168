-- ===== src/Training/Service.antt =====
-- The requests on a training job (apps/api/src/training/training.service.ts).
pub mod Stop
pub mod Configuration
pub mod Submit
pub mod Retry
