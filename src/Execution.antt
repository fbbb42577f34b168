-- ===== src/Execution.antt =====
-- The `job_executions` table: the attempts of a job, the newest of them, and the insertion that the
-- unique constraint on (job_type, job_id, attempt_number) guards
-- (database/migrations/001_initial_schema.sql).
mod Attempts
mod Uniqueness
unfoldable pub use Attempts.*
unfoldable pub use Uniqueness.*
