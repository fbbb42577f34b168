-- ===== src/Training/Service/Retry.antt =====
-- `retry`: a job that ended starts again, in the same row
-- (apps/api/src/training/training.service.ts).
pub mod Restarted
use ikg_studio_model_trainin.Common.{
  ℕ, ◌+◌, Bool, true, false, List, [], ◌∷◌, Option, none, some, String, length, if◌then◌else◌,
}
use ikg_studio_model_trainin.Json.{text, number, Fields, field, end}
use ikg_studio_model_trainin.Http.{ApiError, Result, ok, err}
use ikg_studio_model_trainin.Database.{
  TrainingJobStatus, TimeColumn, AuditActorType, TrainingJob, TrainingDataset, JobExecution,
  Database, set_time,
}
use ikg_studio_model_trainin.Execution.{latest_execution}
use ikg_studio_model_trainin.Scheduler.Promote.{dependency_statuses}
use ikg_studio_model_trainin.Training.Machine.{
  Assignment, set_timestamp, set_configuration_snapshot, set_configuration_hash,
  set_updated_by_user_id, TransitionInput, job_not_found, transition,
}
use ikg_studio_model_trainin.Training.Machine.Paths.{is_terminal}
use ikg_studio_model_trainin.Training.Machine.Laws.{job_row}
use ikg_studio_model_trainin.Training.Service.Configuration.{
  Configuration, Submission, problem, uncaught, ready_dataset, model_problem, all_completed,
  update_job, add_attempt, weights_problem, configuration,
}

-- `resetFields`, with the other columns of that UPDATE.
unfoldable pub reset : ℕ → Submission → TrainingJob → TrainingJob
reset now by j = set_time TimeColumn.updated_at (some now) (
    set_time TimeColumn.started_at none (
      set_time TimeColumn.preparing_at none (
        set_time TimeColumn.stopped_at none (
          set_time TimeColumn.stop_requested_at none (
            set_time TimeColumn.cancelled_at none (
              set_time TimeColumn.finished_at none (record j {
                cancelled_by_user_id = none;
                stop_requested_by_user_id = none;
                failure_code = none;
                failure_message = none;
                failure_stage = none;
                result_model_id = none;
                updated_by_user_id = some by.actor_id;
              })))))))

unfoldable pub retry_input :
    ℕ → Submission → ℕ → TrainingJobStatus → String → String → Fields → TransitionInput
retry_input now by k target snapshot hash more = record {
  job_id = k;
  to = target;
  actor_type = AuditActorType.user;
  actor_user_id = some by.actor_id;
  actor_ref = none;
  correlation_id = by.correlation_id;
  failure = none;
  extra_set =
      set_timestamp TimeColumn.submitted_at now
      ∷ set_configuration_snapshot snapshot
      ∷ set_configuration_hash hash
      ∷ set_updated_by_user_id by.actor_id
      ∷ [];
  audit_action = "TRAINING_JOB_RETRIED";
  metadata = field "configuration_hash" (text hash) more;
}

unfoldable pub attempt_after :
    ℕ → Submission → ℕ → ℕ → String → String → Result Database → Result Database
unfolding add_attempt
attempt_after now by k attempt snapshot hash (err e) = err e
attempt_after now by k attempt snapshot hash (ok db) = add_attempt now by k attempt snapshot hash db

-- To BLOCKED, or to QUEUED with the next attempt.
unfoldable pub restart :
    ℕ → Submission → ℕ → String → String → Database → Bool → Option JobExecution → Result Database
unfolding retry_input transition attempt_after dependency_statuses
restart now by k snapshot hash db completed none = err uncaught
restart now by k snapshot hash db false (some last) =
    transition now
      (retry_input now by k TrainingJobStatus.blocked snapshot hash
        (field "dependency_count" (number (length (dependency_statuses k db))) end))
      db
restart now by k snapshot hash db true (some last) =
    attempt_after now by k (last.attempt_number + 1) snapshot hash
      (transition now (retry_input now by k TrainingJobStatus.queued snapshot hash end) db)

module _ (render : Configuration → String) (sha256 : String → String)
    (yolo_version yolo_size : String → Option String) where
  unfoldable pub retry_allowed :
      ℕ
      → Submission
      → TrainingJob
      → TrainingDataset
      → Database
      → Option ApiError
      → Option ApiError
      → Result Database
  unfolding reset restart all_completed latest_execution
  retry_allowed now by job ds db (some e) weights = err e
  retry_allowed now by job ds db none (some e) = err e
  retry_allowed now by job ds db none none =
      let cleared = update_job job.id (reset now by) db in
      let snapshot = render (
        configuration render sha256 yolo_version yolo_size ds job.base_model_id
          job.hyperparameters) in
      restart now by job.id snapshot (sha256 snapshot) cleared (all_completed job.id cleared)
        (latest_execution job.id cleared.job_executions)

  unfoldable pub retry_on :
      ℕ → Submission → TrainingJob → Database → Result TrainingDataset → Result Database
  unfolding retry_allowed model_problem weights_problem
  retry_on now by job db (err e) = err e
  retry_on now by job db (ok ds) =
      retry_allowed now by job ds db (model_problem ds.task_type job.base_model_id db) (
        weights_problem render sha256 yolo_version yolo_size job.hyperparameters ds.task_type
          job.base_model_id)

  unfoldable pub retry_of : ℕ → Submission → TrainingJob → Database → Option ℕ → Result Database
  unfolding retry_on ready_dataset
  retry_of now by job db none = err (problem "VALIDATION_FAILED" 400)
  retry_of now by job db (some d) = retry_on now by job db (ready_dataset d db)

  unfoldable pub retry_found : ℕ → Submission → Database → Option TrainingJob → Result Database
  unfolding retry_of
  retry_found now by db none = err job_not_found
  retry_found now by db (some job) =
      if is_terminal job.status
      then retry_of now by job db job.training_dataset_id
      else err (problem "TRAINING_NOT_RETRYABLE" 409)

  -- `retry` of the job `k`.
  unfoldable pub retry : ℕ → Submission → ℕ → Database → Result Database
  unfolding retry_found
  retry now by k db = retry_found now by db (job_row k db)
