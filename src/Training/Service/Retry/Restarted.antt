-- ===== src/Training/Service/Retry/Restarted.antt =====
-- What `retry` does to a job that ended (apps/api/src/training/training.service.ts).
use ikg_studio_model_trainin.Common.{
  ℕ, ◌+◌, ◌≡◌, refl, ap, sym, ◌∙◌, Bool, true, false, [], ◌∷◌, ◌++◌, Option, none, some, String,
  all, any, length, take_first-update, ◌==◌, arith,
}
use ikg_studio_model_trainin.Json.{Fields, number, field, end}
use ikg_studio_model_trainin.Http.{ok}
use ikg_studio_model_trainin.Database.{
  TrainingJobStatus, TrainingJob, TrainingDataset, JobExecution, AuditLog, TimeColumn, Database,
}
use ikg_studio_model_trainin.Execution.{
  of_training, latest_execution, max_attempt, latest-exists, latest-max, same_attempt, beyond_max,
}
use ikg_studio_model_trainin.Scheduler.Promote.{dependency_statuses, is_completed}
use ikg_studio_model_trainin.Scheduler.Promote.Statuses.{dependency_statuses-update}
use ikg_studio_model_trainin.Audit.{append}
use ikg_studio_model_trainin.Scheduler.Retry.{new_execution, dispatch_of, insert_event}
use ikg_studio_model_trainin.Scheduler.Retry.Dispatch.{insert_new}
use ikg_studio_model_trainin.Training.Machine.{
  is_legal, TransitionInput, transition, apply_transition, transitioned,
}
use ikg_studio_model_trainin.Training.Machine.Paths.{is_terminal}
use ikg_studio_model_trainin.Training.Machine.Laws.{job_row, apply-row, transition_allowed}
use ikg_studio_model_trainin.Training.Service.Configuration.{
  Configuration, Submission, ready_dataset, model_problem, weights_problem, all_completed,
  update_job, enqueue_attempt, add_attempt, configuration,
}
use ikg_studio_model_trainin.Training.Service.Retry.{
  reset, retry_input, attempt_after, restart, retry_allowed, retry_on, retry_of, retry_found, retry,
}

terminal_restarts :
    (s : TrainingJobStatus)
    → is_terminal s ≡ true
    → (is_legal s TrainingJobStatus.queued ≡ true) × (is_legal s TrainingJobStatus.blocked ≡ true)
unfolding is_legal
terminal_restarts s h = ground arith

-- The row that starts again: its target, the new configuration, and the columns of the last run that
-- are cleared.
pub record Renewed (now : ℕ) (by : Submission) (target : TrainingJobStatus) (snapshot hash : String)
    (before after : TrainingJob) : Type 0 where
  pub at_target : after.status ≡ target
  pub next_version : after.row_version ≡ before.row_version + 1
  pub configured : (after.configuration_snapshot ≡ snapshot) × (after.configuration_hash ≡ hash)
  pub submitted : after.time TimeColumn.submitted_at ≡ some now
  pub by_actor : after.updated_by_user_id ≡ some by.actor_id
  pub not_begun :
      (after.time TimeColumn.preparing_at ≡ none) × (after.time TimeColumn.started_at ≡ none)
  pub not_ended :
      (after.time TimeColumn.finished_at ≡ none)
      × (after.time TimeColumn.cancelled_at ≡ none)
      × (after.time TimeColumn.stopped_at ≡ none)
      × (after.time TimeColumn.stop_requested_at ≡ none)
  pub by_nobody : (after.cancelled_by_user_id ≡ none) × (after.stop_requested_by_user_id ≡ none)
  pub not_failed :
      (after.failure_code ≡ none)
      × (after.failure_message ≡ none)
      × (after.failure_stage ≡ none)
      × (after.result_model_id ≡ none)
  pub same_job :
      (after.id ≡ before.id)
      × (after.name ≡ before.name)
      × (after.training_dataset_id ≡ before.training_dataset_id)
      × (after.base_model_id ≡ before.base_model_id)
      × (after.hyperparameters ≡ before.hyperparameters)

-- The job's row, the attempts, the events and the audit log, after a restart.
pub data Restarted (now : ℕ) (by : Submission) (snapshot hash : String) (job : TrainingJob)
    (before after : Database) : Type 0 where
  blocked_again :
      (j : TrainingJob) (entry : AuditLog)
      → all is_completed (dependency_statuses job.id before) ≡ false
      → job_row job.id after ≡ some j
      → Renewed now by TrainingJobStatus.blocked snapshot hash job j
      → after.job_executions ≡ before.job_executions
      → after.outbox_events ≡ before.outbox_events
      → after.audit_logs ≡ before.audit_logs ++ entry ∷ []
      → entry.action_code ≡ "TRAINING_JOB_RETRIED"
      → Restarted now by snapshot hash job before after
  queued_again :
      (j : TrainingJob) (e : JobExecution) (entry : AuditLog)
      → all is_completed (dependency_statuses job.id before) ≡ true
      → job_row job.id after ≡ some j
      → Renewed now by TrainingJobStatus.queued snapshot hash job j
      → j.time TimeColumn.queued_at ≡ some now
      → e
        ≡ new_execution now by.ids job.id
            (max_attempt job.id before.job_executions + 1)
            by.correlation_id
            snapshot
            hash
      → any (same_attempt e) before.job_executions ≡ false
      → after.job_executions ≡ before.job_executions ++ e ∷ []
      → after.outbox_events ≡ before.outbox_events ++ dispatch_of e now ∷ []
      → after.audit_logs ≡ before.audit_logs ++ entry ∷ []
      → entry.action_code ≡ "TRAINING_JOB_RETRIED"
      → Restarted now by snapshot hash job before after

module _ (now : ℕ) (by : Submission) (snapshot hash : String) (job : TrainingJob) where
  -- The transition's row, from the row that is reset.
  blocked-Renewed :
      (more : Fields)
      → Renewed now by TrainingJobStatus.blocked snapshot hash job (
          transitioned now
            (retry_input now by job.id TrainingJobStatus.blocked snapshot hash more)
            (reset now by job))
  unfolding transitioned retry_input reset
  blocked-Renewed more = record {
    at_target = refl;
    next_version = refl;
    configured = (refl, refl);
    submitted = refl;
    by_actor = refl;
    not_begun = (refl, refl);
    not_ended = (refl, refl, refl, refl);
    by_nobody = (refl, refl);
    not_failed = (refl, refl, refl, refl);
    same_job = (refl, refl, refl, refl, refl);
  }

  queued-Renewed : Renewed now by TrainingJobStatus.queued snapshot hash job (
      transitioned now
        (retry_input now by job.id TrainingJobStatus.queued snapshot hash end)
        (reset now by job))
  unfolding transitioned retry_input reset
  queued-Renewed = record {
    at_target = refl;
    next_version = refl;
    configured = (refl, refl);
    submitted = refl;
    by_actor = refl;
    not_begun = (refl, refl);
    not_ended = (refl, refl, refl, refl);
    by_nobody = (refl, refl);
    not_failed = (refl, refl, refl, refl);
    same_job = (refl, refl, refl, refl, refl);
  }

module _ (now : ℕ) (by : Submission) (snapshot hash : String) (before : Database)
    (job : TrainingJob) (row : job_row job.id before ≡ some job)
    (ended : is_terminal job.status ≡ true) (last : JobExecution)
    (newest : latest_execution job.id before.job_executions ≡ some last) where
  abbrev cleared : Database
  cleared = update_job job.id (reset now by) before

  found : job_row job.id cleared ≡ some (reset now by job)
  unfolding reset
  found = take_first-update (λ x. x.id == job.id) (reset now by) (λ x h. h) before.training_jobs row

  pub completed_same :
      all is_completed (dependency_statuses job.id cleared)
      ≡ all is_completed (dependency_statuses job.id before)
  unfolding reset
  completed_same = ap (all is_completed) (
      dependency_statuses-update (λ j. j.id == job.id) (reset now by) (λ j. (refl, refl)) job.id
        before)

  -- A transition of the job, by its row.
  moved :
      (target : TrainingJobStatus) (more : Fields)
      → is_legal job.status target ≡ true
      → let input : TransitionInput = retry_input now by job.id target snapshot hash more in
        (transition now input cleared ≡ ok (apply_transition now input (reset now by job) cleared))
        × (job_row job.id (apply_transition now input (reset now by job) cleared)
            ≡ some (transitioned now input (reset now by job)))
  unfolding retry_input reset
  moved target more legal =
      let input = retry_input now by job.id target snapshot hash more in
      (
        transition_allowed now input cleared found legal,
        apply-row now input cleared (reset now by job) found,
      )

  pub restart-Restarted :
      (completed : Bool)
      → all is_completed (dependency_statuses job.id before) ≡ completed
      → (after : Database) × (restart now by job.id snapshot hash cleared completed (some last)
          ≡ ok after)
        × Restarted now by snapshot hash job before after
  unfolding restart attempt_after add_attempt enqueue_attempt apply_transition append new_execution
  restart-Restarted false waits =
      let more =
        field "dependency_count" (number (length (dependency_statuses job.id cleared))) end in
      let input = retry_input now by job.id TrainingJobStatus.blocked snapshot hash more in
      let (done, own) =
        moved TrainingJobStatus.blocked more (terminal_restarts job.status ended).1 in
      (
        apply_transition now input (reset now by job) cleared,
        done,
        blocked_again (transitioned now input (reset now by job)) _ waits own
            (blocked-Renewed now by snapshot hash job more) refl refl refl refl,
      )
  restart-Restarted true ready =
      let input = retry_input now by job.id TrainingJobStatus.queued snapshot hash end in
      let (done, own) = moved TrainingJobStatus.queued end (terminal_restarts job.status ended).0 in
      let e =
        new_execution now by.ids job.id (last.attempt_number + 1) by.correlation_id snapshot hash in
      let moved_db = apply_transition now input (reset now by job) cleared in
      let numbered : e
          ≡ new_execution now by.ids job.id (max_attempt job.id before.job_executions + 1)
              by.correlation_id snapshot hash =
        ap (λ (n : ℕ). new_execution now by.ids job.id (n + 1) by.correlation_id snapshot hash)
          (latest-max job.id before.job_executions last newest) in
      let fresh : any (same_attempt e) before.job_executions ≡ false =
        beyond_max e before.job_executions refl
          (omega (arith, latest-max job.id before.job_executions last newest)) in
      (
        insert_event (dispatch_of e now)
            (record moved_db { job_executions = moved_db.job_executions ++ e ∷ [] }),
        ap (attempt_after now by job.id (last.attempt_number + 1) snapshot hash) done
            ∙ ap (enqueue_attempt now e) (insert_new e moved_db fresh),
        queued_again (transitioned now input (reset now by job)) e _ ready own
            (queued-Renewed now by snapshot hash job) refl numbered fresh refl refl refl refl,
      )

module _ (render : Configuration → String) (sha256 : String → String)
    (yolo_version yolo_size : String → Option String) where
  -- The configuration that the job and its dataset give.
  abbrev pub snapshot_of : TrainingDataset → TrainingJob → String
  snapshot_of ds job =
      render (
        configuration render sha256 yolo_version yolo_size ds job.base_model_id job.hyperparameters)

  -- A job that ended, whose dataset is READY, whose base model is AVAILABLE and of the dataset's
  -- task, or whose official weights exist, and that has an execution, is started again with the
  -- configuration rendered anew; the times of its preparation, start, end, cancellation and stop,
  -- who cancelled or stopped it, its failure and its result are cleared. If some dependency is not
  -- COMPLETED it is BLOCKED, with no execution and no event added; otherwise it is QUEUED, with one
  -- execution added, whose number is the one after the greatest of the job's and was not used, and
  -- the event that dispatches it. One audit entry is added, TRAINING_JOB_RETRIED.
  pub retry-Restarted :
      (now : ℕ) (by : Submission) (db : Database) (job : TrainingJob) (d : ℕ) (ds : TrainingDataset)
      → job_row job.id db ≡ some job
      → is_terminal job.status ≡ true
      → job.training_dataset_id ≡ some d
      → ready_dataset d db ≡ ok ds
      → model_problem ds.task_type job.base_model_id db ≡ none
      → weights_problem render sha256 yolo_version yolo_size job.hyperparameters ds.task_type
          job.base_model_id
        ≡ none
      → any (of_training job.id) db.job_executions ≡ true
      → (after : Database) × (retry render sha256 yolo_version yolo_size now by job.id db
          ≡ ok after)
        × Restarted now by (snapshot_of ds job) (sha256 (snapshot_of ds job)) job db after
  unfolding retry retry_found retry_of retry_on retry_allowed all_completed
  retry-Restarted now by db job d ds row ended dataset ready model weights ran =
      let (last, newest) = latest-exists job.id db.job_executions ran in
      let snapshot = snapshot_of ds job in
      let (after, done, restarted) =
        restart-Restarted now by snapshot (sha256 snapshot) db job row ended last newest
          (all_completed job.id (update_job job.id (reset now by) db))
          (sym (completed_same now by snapshot (sha256 snapshot) db job row ended last newest)) in
      (after, rw (row, ended, dataset, ready, model, weights, newest) done, restarted)
