-- ===== src/Scheduler/Retry.antt =====
-- The dispatch of a further and of a first attempt of a training job
-- (apps/scheduler/src/retry.ts).
pub mod Dispatch
pub mod Stage
pub mod Failed
pub mod Fresh
use Prim.Native.String
use ikg_studio_model_trainin.Common.{
  ℕ, ◌+◌, ◌-◌, ◌*◌, ◌^◌, min, max, Bool, true, false, ◌&&◌, List, [], ◌∷◌, ◌++◌, Option, none, some,
  String, any, select, take_first, update, count, str_eq, ltb, leb, ◌==◌, if◌then◌else◌,
}
use ikg_studio_model_trainin.Json.{number, text, Fields, end, field}
use ikg_studio_model_trainin.Database.{
  TrainingJobStatus, job_status_eq, TimeColumn, TrainingJob, JobType, JobExecution,
  JobExecutionStatus, Payload, OutboxEvent, AuditActorType, AuditResult, AuditLog, Database, Tx,
  insert_audit, set_time,
}
use ikg_studio_model_trainin.Execution.{latest_execution, max_attempt, insert_execution}

-- What the database and `randomUUID` draw for a new execution.
pub record NewIds : Type 0 where
  pub execution_id : ℕ
  pub assignment_token : ℕ
  pub correlation_id : ℕ

pub record RetryDispatchOptions : Type 0 where
  pub job_id : ℕ
  pub correlation_id : ℕ
  pub backoff_base_s : ℕ
  pub backoff_cap_s : ℕ
  pub reason : String
  pub lost_execution_id : Option ℕ

pub record RetryDispatched : Type 0 where
  pub new_execution_id : ℕ
  pub next_attempt : ℕ
  pub backoff_s : ℕ

abbrev pub dispatch_event : String
dispatch_event = "job.training.dispatch"

-- `Math.min(base * 2 ** Math.max(0, attempt - 2), cap)`; subtraction stops at 0 as `max` does.
unfoldable pub backoff : ℕ → ℕ → ℕ → ℕ
backoff base cap attempt = min (base * 2 ^ (attempt - 2)) cap

-- A new attempt, with the columns that the INSERT gives and the defaults of the others.
unfoldable pub new_execution : ℕ → NewIds → ℕ → ℕ → ℕ → String → String → JobExecution
new_execution now ids job attempt correlation snapshot hash = record {
  id = ids.execution_id;
  job_type = JobType.training;
  job_id = job;
  attempt_number = attempt;
  status = JobExecutionStatus.assigned;
  assignment_token = ids.assignment_token;
  configuration_snapshot = snapshot;
  configuration_hash = hash;
  started_at = none;
  heartbeat_at = none;
  finished_at = none;
  error_code = none;
  error_message = none;
  correlation_id = correlation;
  created_at = now;
}

unfoldable pub dispatch_of : JobExecution → ℕ → OutboxEvent
dispatch_of e available = record {
  event_type = dispatch_event;
  aggregate_type_code = "JOB_EXECUTION";
  aggregate_id = e.id;
  payload =
      Payload.training_dispatch e.id e.assignment_token e.job_id e.correlation_id e.attempt_number;
  correlation_id = e.correlation_id;
  available_at = available;
}

abbrev pub insert_event : OutboxEvent → Database → Database
insert_event v db = record db { outbox_events = db.outbox_events ++ v ∷ [] }

abbrev lost_field : Option ℕ → Fields
lost_field none = end
lost_field (some e) = field "lost_execution_id" (number e) end

retry_audit : RetryDispatchOptions → JobExecution → ℕ → AuditLog
retry_audit opts e delay = record {
  actor_type = AuditActorType.system;
  actor_user_id = none;
  actor_ref = some "scheduler";
  action_code = "TRAINING_JOB_RETRY_SCHEDULED";
  resource_type_code = "TRAINING_JOB";
  resource_id = opts.job_id;
  before_snapshot = none;
  after_snapshot = none;
  diff = none;
  result = AuditResult.success;
  correlation_id = opts.correlation_id;
  error_code = none;
  error_message = none;
  metadata = field "reason" (text opts.reason) (
      field "next_attempt" (number e.attempt_number) (
        field "backoff_seconds" (number delay)
          (field "new_execution_id" (number e.id) (lost_field opts.lost_execution_id))));
}

-- The attempt that follows `latest`, with its configuration.
unfoldable pub next_execution : ℕ → NewIds → RetryDispatchOptions → JobExecution → JobExecution
unfolding new_execution
next_execution now ids opts latest =
    new_execution now ids opts.job_id (latest.attempt_number + 1) opts.correlation_id
      latest.configuration_snapshot latest.configuration_hash

enqueue_retry :
    ℕ → RetryDispatchOptions → JobExecution → Option Database → Option (Database × RetryDispatched)
unfolding backoff dispatch_of retry_audit
enqueue_retry now opts e none = none
enqueue_retry now opts e (some db) =
    let delay = backoff opts.backoff_base_s opts.backoff_cap_s e.attempt_number in
    some (
      insert_audit (retry_audit opts e delay) (insert_event (dispatch_of e (now + delay)) db),
      record { new_execution_id = e.id; next_attempt = e.attempt_number; backoff_s = delay },
    )

dispatch_after :
    ℕ
    → NewIds
    → RetryDispatchOptions
    → Database
    → Option JobExecution
    → Option (Database × RetryDispatched)
unfolding enqueue_retry insert_execution next_execution
dispatch_after now ids opts db none = none
dispatch_after now ids opts db (some latest) =
    let e = next_execution now ids opts latest in enqueue_retry now opts e (insert_execution e db)

-- `dispatchTrainingRetry`: none is a job with no execution, or a violated constraint.
unfoldable pub dispatch_training_retry : ℕ → NewIds → RetryDispatchOptions → Tx RetryDispatched
unfolding dispatch_after
dispatch_training_retry now ids opts db =
    dispatch_after now ids opts db (latest_execution opts.job_id db.job_executions)

enqueue_fresh : ℕ → JobExecution → Option Database → Option (Database × ℕ)
unfolding dispatch_of
enqueue_fresh now e none = none
enqueue_fresh now e (some db) = some (insert_event (dispatch_of e now) db, e.id)

fresh_after : ℕ → NewIds → ℕ → ℕ → Database → Option TrainingJob → Option (Database × ℕ)
unfolding enqueue_fresh insert_execution new_execution
fresh_after now ids k correlation db none = none
fresh_after now ids k correlation db (some job) =
    let e =
      new_execution now ids k (max_attempt k db.job_executions + 1) correlation
        job.configuration_snapshot job.configuration_hash in
    enqueue_fresh now e (insert_execution e db)

-- `dispatchFreshTrainingJob`: the configuration is the job's own, and there is no delay.
unfoldable pub dispatch_fresh_training_job : ℕ → NewIds → ℕ → ℕ → Tx ℕ
unfolding fresh_after
dispatch_fresh_training_job now ids k correlation db =
    fresh_after now ids k correlation db (take_first (λ j. j.id == k) db.training_jobs)
