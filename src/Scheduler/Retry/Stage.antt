-- ===== src/Scheduler/Retry/Stage.antt =====
-- The stage that retries transient failures (apps/scheduler/src/retry.ts,
-- `retryFailedTrainingJobs`).
use Prim.Native.String
use ikg_studio_model_trainin.Common.{
  ℕ, ◌+◌, ◌-◌, max, Bool, true, false, ◌&&◌, List, [], ◌∷◌, Option, none, some, String, any, select,
  update, count, str_eq, ltb, leb, ◌==◌, if◌then◌else◌,
}
use ikg_studio_model_trainin.Database.{
  TrainingJobStatus, job_status_eq, TimeColumn, TrainingJob, JobExecution, Database, Tx, set_time,
}
use ikg_studio_model_trainin.Execution.{latest_execution, max_attempt}
use ikg_studio_model_trainin.Scheduler.Retry.{
  NewIds, RetryDispatchOptions, RetryDispatched, dispatch_training_retry,
}

-- `RETRIABLE_FAILURE_CODES`.
abbrev pub retriable_failure_codes : List String
retriable_failure_codes =
    "STORAGE_TEMPORARY_FAILURE" ∷ "DATABASE_CONNECTION_FAILURE" ∷ "NETWORK_TIMEOUT"
    ∷ "REDIS_TIMEOUT" ∷ []

unfoldable pub is_retriable : Option String → Bool
is_retriable none = false
is_retriable (some code) = any (str_eq code) retriable_failure_codes

pub record FailedRetryOptions : Type 0 where
  pub max_training_attempts : ℕ
  pub backoff_base_s : ℕ
  pub stale_timeout_s : ℕ
  pub window_s : ℕ

-- `finished_at > now() - window`; a null column is not recent.
is_recent : ℕ → ℕ → Option ℕ → Bool
is_recent now window none = false
is_recent now window (some t) = ltb now (t + window)

-- The jobs that the stage reads first.
unfoldable pub is_candidate : ℕ → FailedRetryOptions → TrainingJob → Bool
unfolding is_retriable is_recent
is_candidate now opts j =
    job_status_eq j.status TrainingJobStatus.failed
    && is_retriable j.failure_code
    && is_recent now opts.window_s (j.time TimeColumn.finished_at)

-- The columns of the requeue.
unfoldable pub requeued : ℕ → TrainingJob → TrainingJob
requeued now j = set_time TimeColumn.updated_at (some now) (
    set_time TimeColumn.finished_at none (record j {
      status = TrainingJobStatus.queued;
      failure_stage = none;
      failure_code = none;
      failure_message = none;
      row_version = j.row_version + 1;
    }))

-- `Math.max(5, staleTimeoutS - 30)`.
abbrev pub backoff_cap : ℕ → ℕ
backoff_cap stale = max 5 (stale - 30)

abbrev pub correlation_of : Option JobExecution → ℕ → ℕ
correlation_of none drawn = drawn
correlation_of (some e) drawn = e.correlation_id

abbrev pub code_text : Option String → String
code_text none = "null"
code_text (some s) = s

unfoldable pub is_failed_job : ℕ → TrainingJob → Bool
is_failed_job k j = j.id == k && job_status_eq j.status TrainingJobStatus.failed

unfoldable pub failed_retry_options :
    ℕ → FailedRetryOptions → TrainingJob → Database → RetryDispatchOptions
failed_retry_options drawn opts job db = record {
  job_id = job.id;
  correlation_id = correlation_of (latest_execution job.id db.job_executions) drawn;
  backoff_base_s = opts.backoff_base_s;
  backoff_cap_s = backoff_cap opts.stale_timeout_s;
  reason = String.◌++◌ "error_retry:" (code_text job.failure_code);
  lost_execution_id = none;
}

unfoldable pub requeue_failed : ℕ → ℕ → Database → Database
unfolding is_failed_job requeued
requeue_failed now k db = record db {
  training_jobs = update (is_failed_job k) (requeued now) db.training_jobs;
}

-- `retried += 1` runs once the dispatch has returned.
unfoldable pub counted : Option (Database × RetryDispatched) → Option (Database × Bool)
counted none = none
counted (some (db, r)) = some (db, true)

-- The transaction for one candidate; the Boolean is whether it was retried.
unfoldable pub retry_failed_job : ℕ → NewIds → FailedRetryOptions → TrainingJob → Tx Bool
unfolding is_failed_job requeue_failed failed_retry_options dispatch_training_retry counted
retry_failed_job now ids opts job db =
    if leb opts.max_training_attempts (max_attempt job.id db.job_executions)
    then some (db, false)
    else if count (is_failed_job job.id) db.training_jobs == 0
    then some (db, false)
    else counted (
        dispatch_training_retry now ids (failed_retry_options ids.correlation_id opts job db)
          (requeue_failed now job.id db))

-- What the loop meets: the clock, the identifiers drawn for each candidate, and the candidates
-- whose transaction the database aborts.
pub record Env : Type 0 where
  pub now : ℕ
  pub ids : ℕ → NewIds
  pub aborts : ℕ → Bool

abbrev pub one_if : Bool → ℕ
one_if b = if b then 1 else 0

-- A body that throws counts nothing and an aborted transaction leaves no trace in the database, but
-- the counter was already raised.
unfoldable pub settle : Bool → Option (Database × Bool) → Database × ℕ → Database × ℕ
settle aborted none (db, n) = (db, n)
settle true (some (after, retried)) (db, n) = (db, n + one_if retried)
settle false (some (after, retried)) (db, n) = (after, n + one_if retried)

unfoldable pub retry_candidates :
    Env → FailedRetryOptions → List TrainingJob → Database × ℕ → Database × ℕ
unfolding settle retry_failed_job
retry_candidates env opts [] s = s
retry_candidates env opts (job ∷ jobs) s =
    retry_candidates env opts jobs
      (settle (env.aborts job.id) (retry_failed_job env.now (env.ids job.id) opts job s.0) s)

-- `retryFailedTrainingJobs`.
unfoldable pub retry_failed_training_jobs : Env → FailedRetryOptions → Database → Database × ℕ
unfolding retry_candidates is_candidate
retry_failed_training_jobs env opts db =
    retry_candidates env opts (select (is_candidate env.now opts) db.training_jobs) (db, 0)
