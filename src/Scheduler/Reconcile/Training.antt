-- ===== src/Scheduler/Reconcile/Training.antt =====
-- A training job whose execution was lost: it is stopped, retried or failed
-- (apps/scheduler/src/reconcile.ts).
pub mod Outcome
pub mod Ended
use ikg_studio_model_trainin.Common.{
  ℕ, ◌+◌, ◌-◌, Bool, true, false, not, ◌&&◌, Option, none, some, String, count, take_first, update,
  ltb, ◌==◌, if◌then◌else◌,
}
use ikg_studio_model_trainin.Json.{text, field, end}
use ikg_studio_model_trainin.Database.{
  TrainingJobStatus, job_status_eq, TimeColumn, TrainingJob, JobExecution, AuditResult, Database,
  insert_audit, set_time,
}
use ikg_studio_model_trainin.Scheduler.Entries.{scheduler_entry, lost_code}
use ikg_studio_model_trainin.Scheduler.Retry.{
  NewIds, RetryDispatchOptions, RetryDispatched, dispatch_training_retry,
}
use ikg_studio_model_trainin.Scheduler.Retry.Stage.{backoff_cap, requeued}

pub record RetryOptions : Type 0 where
  pub max_training_attempts : ℕ
  pub backoff_base_s : ℕ

-- What a transaction adds to the counters, beyond `lost`.
pub data Recovery : Type 0 where
  none_counted retried failed : Recovery

-- `TERMINAL_JOB_STATUSES`.
abbrev pub is_terminal : TrainingJobStatus → Bool
is_terminal TrainingJobStatus.completed = true
is_terminal TrainingJobStatus.failed = true
is_terminal TrainingJobStatus.cancelled = true
is_terminal TrainingJobStatus.stopped = true
is_terminal _ = false

abbrev pub is_stopping : TrainingJobStatus → Bool
is_stopping s = job_status_eq s TrainingJobStatus.stopping

unfoldable pub is_stopping_job : ℕ → TrainingJob → Bool
is_stopping_job k j = j.id == k && is_stopping j.status

unfoldable pub is_live_job : ℕ → TrainingJob → Bool
is_live_job k j = j.id == k && not (is_terminal j.status)

unfoldable pub stopped_job : ℕ → TrainingJob → TrainingJob
stopped_job now j = set_time TimeColumn.updated_at (some now) (
    set_time TimeColumn.stopped_at (some now) (
      set_time TimeColumn.finished_at (some now)
        (record j { status = TrainingJobStatus.stopped; row_version = j.row_version + 1 })))

unfoldable pub exhausted_job : ℕ → TrainingJob → TrainingJob
exhausted_job now j = set_time TimeColumn.updated_at (some now) (
    set_time TimeColumn.finished_at (some now) (record j {
      status = TrainingJobStatus.failed;
      failure_stage = some "RECOVERY";
      failure_code = lost_code;
      failure_message = some "Execution lost (heartbeat timeout); retry attempts exhausted";
      row_version = j.row_version + 1;
    }))

unfoldable pub stop_job : ℕ → JobExecution → Database → Database
unfolding is_stopping_job stopped_job scheduler_entry
stop_job now c db =
    insert_audit
      (scheduler_entry "TRAINING_JOB_STOPPED" "TRAINING_JOB" c.job_id AuditResult.success
        c.correlation_id none
        (field "from" (text "STOPPING")
          (field "to" (text "STOPPED") (field "reason" (text "execution_lost_during_stop") end))))
      (record db {
        training_jobs = update (is_stopping_job c.job_id) (stopped_job now) db.training_jobs;
      })

unfoldable pub exhaust_job : ℕ → JobExecution → Database → Database
unfolding is_live_job exhausted_job
exhaust_job now c db = record db {
  training_jobs = update (is_live_job c.job_id) (exhausted_job now) db.training_jobs;
}

unfoldable pub requeue_job : ℕ → JobExecution → Database → Database
unfolding is_live_job requeued
requeue_job now c db = record db {
  training_jobs = update (is_live_job c.job_id) (requeued now) db.training_jobs;
}

unfoldable pub lost_retry_options : ℕ → RetryOptions → JobExecution → RetryDispatchOptions
lost_retry_options stale retry c = record {
  job_id = c.job_id;
  correlation_id = c.correlation_id;
  backoff_base_s = retry.backoff_base_s;
  backoff_cap_s = backoff_cap stale;
  reason = "execution_lost";
  lost_execution_id = some c.id;
}

counted : Option (Database × RetryDispatched) → Option (Database × Recovery)
counted none = none
counted (some (db, r)) = some (db, Recovery.retried)

abbrev row_is_stopping : Option TrainingJob → Bool
row_is_stopping none = false
row_is_stopping (some j) = is_stopping j.status

-- `retry` while attempts remain, by the lost execution's own attempt number.
unfoldable pub recover_training :
    ℕ → NewIds → ℕ → RetryOptions → JobExecution → Database → Option (Database × Recovery)
unfolding stop_job exhaust_job requeue_job is_live_job lost_retry_options counted
recover_training now ids stale retry c db =
    if row_is_stopping (take_first (λ j. j.id == c.job_id) db.training_jobs)
    then some (stop_job now c db, Recovery.failed)
    else if not (ltb c.attempt_number retry.max_training_attempts)
    then some (exhaust_job now c db, Recovery.failed)
    else if count (is_live_job c.job_id) db.training_jobs == 0
    then some (db, Recovery.none_counted)
    else counted
        (dispatch_training_retry now ids (lost_retry_options stale retry c) (requeue_job now c db))
