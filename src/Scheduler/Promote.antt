-- ===== src/Scheduler/Promote.antt =====
-- The stage that promotes or fails BLOCKED training jobs by their dependencies
-- (apps/scheduler/src/promote.ts).
pub mod Outcome
pub mod Statuses
pub mod Laws
use ikg_studio_model_trainin.Common.{
  ℕ, ◌+◌, Bool, true, false, ◌&&◌, List, [], ◌∷◌, Option, none, some, any, all, select, take_first,
  update, count, ◌==◌, if◌then◌else◌,
}
use ikg_studio_model_trainin.Json.{text, field, end}
use ikg_studio_model_trainin.Database.{
  TrainingJobStatus, job_status_eq, TimeColumn, TrainingJob, TrainingJobDependency, AuditActorType,
  AuditResult, AuditLog, Database, Tx, insert_audit, set_time,
}
use ikg_studio_model_trainin.Scheduler.Retry.{NewIds, dispatch_fresh_training_job}
use ikg_studio_model_trainin.Scheduler.Retry.Stage.{Env}

pub record PromoteResult : Type 0 where
  pub promoted : ℕ
  pub failed : ℕ

-- What one transaction adds to the counters.
pub data Promotion : Type 0 where
  idle promoted failed : Promotion

-- The status of the job that a dependency names, where the row is there (an inner join).
status_of : ℕ → List TrainingJob → List TrainingJobStatus → List TrainingJobStatus
status_of k [] rest = rest
status_of k (j ∷ jobs) rest =
    if j.id == k then j.status ∷ status_of k jobs rest else status_of k jobs rest

joined : ℕ → List TrainingJob → List TrainingJobDependency → List TrainingJobStatus
unfolding status_of
joined k jobs [] = []
joined k jobs (d ∷ deps) =
    let rest = joined k jobs deps in
    if d.job_id == k then status_of d.depends_on_job_id jobs rest else rest

unfoldable pub dependency_statuses : ℕ → Database → List TrainingJobStatus
unfolding joined
dependency_statuses k db = joined k db.training_jobs db.training_job_dependencies

-- FAILED, CANCELLED or STOPPED.
abbrev pub is_dead : TrainingJobStatus → Bool
is_dead TrainingJobStatus.failed = true
is_dead TrainingJobStatus.cancelled = true
is_dead TrainingJobStatus.stopped = true
is_dead _ = false

abbrev pub is_completed : TrainingJobStatus → Bool
is_completed s = job_status_eq s TrainingJobStatus.completed

unfoldable pub is_blocked_job : ℕ → TrainingJob → Bool
is_blocked_job k j = j.id == k && job_status_eq j.status TrainingJobStatus.blocked

unfoldable pub dependency_failed : ℕ → TrainingJob → TrainingJob
dependency_failed now j = set_time TimeColumn.updated_at (some now) (
    set_time TimeColumn.finished_at (some now) (record j {
      status = TrainingJobStatus.failed;
      failure_code = some "DEPENDENCY_FAILED";
      failure_message = some "a dependency ended in a failed/cancelled/stopped state";
      row_version = j.row_version + 1;
    }))

unfoldable pub unblocked : ℕ → TrainingJob → TrainingJob
unblocked now j = set_time TimeColumn.updated_at (some now) (
    set_time TimeColumn.queued_at (some now)
      (record j { status = TrainingJobStatus.queued; row_version = j.row_version + 1 }))

failed_audit : ℕ → ℕ → AuditLog
failed_audit k correlation = record {
  actor_type = AuditActorType.system;
  actor_user_id = none;
  actor_ref = some "scheduler";
  action_code = "TRAINING_JOB_FAILED";
  resource_type_code = "TRAINING_JOB";
  resource_id = k;
  before_snapshot = none;
  after_snapshot = none;
  diff = none;
  result = AuditResult.failure;
  correlation_id = correlation;
  error_code = some "DEPENDENCY_FAILED";
  error_message = none;
  metadata = field "from" (text "BLOCKED") (field "to" (text "FAILED") end);
}

unblocked_audit : ℕ → ℕ → AuditLog
unblocked_audit k correlation = record {
  actor_type = AuditActorType.system;
  actor_user_id = none;
  actor_ref = some "scheduler";
  action_code = "TRAINING_JOB_UNBLOCKED";
  resource_type_code = "TRAINING_JOB";
  resource_id = k;
  before_snapshot = none;
  after_snapshot = none;
  diff = none;
  result = AuditResult.success;
  correlation_id = correlation;
  error_code = none;
  error_message = none;
  metadata = field "from" (text "BLOCKED") (field "to" (text "QUEUED") end);
}

-- The guarded UPDATE from BLOCKED.
unfoldable pub update_blocked : ℕ → (TrainingJob → TrainingJob) → Database → Database
unfolding is_blocked_job
update_blocked k f db = record db { training_jobs = update (is_blocked_job k) f db.training_jobs }

fail_blocked : ℕ → NewIds → ℕ → Database → Database × Promotion
unfolding is_blocked_job update_blocked dependency_failed failed_audit
fail_blocked now ids k db =
    if count (is_blocked_job k) db.training_jobs == 0 then (db, Promotion.idle) else (
      insert_audit (failed_audit k ids.correlation_id)
          (update_blocked k (dependency_failed now) db),
      Promotion.failed,
    )

after_dispatch : ℕ → NewIds → Option (Database × ℕ) → Option (Database × Promotion)
unfolding unblocked_audit
after_dispatch k ids none = none
after_dispatch k ids (some (db, e)) =
    some (insert_audit (unblocked_audit k ids.correlation_id) db, Promotion.promoted)

queue_blocked : ℕ → NewIds → ℕ → Database → Option (Database × Promotion)
unfolding is_blocked_job update_blocked unblocked after_dispatch dispatch_fresh_training_job
queue_blocked now ids k db =
    if count (is_blocked_job k) db.training_jobs == 0
    then some (db, Promotion.idle)
    else after_dispatch k ids (
        dispatch_fresh_training_job now ids k ids.correlation_id
          (update_blocked k (unblocked now) db))

promote_locked : ℕ → NewIds → ℕ → Database → Option TrainingJob → Option (Database × Promotion)
unfolding dependency_statuses fail_blocked queue_blocked
promote_locked now ids k db none = some (db, Promotion.idle)
promote_locked now ids k db (some row) =
    if any is_dead (dependency_statuses k db)
    then some (fail_blocked now ids k db)
    else if all is_completed (dependency_statuses k db)
    then queue_blocked now ids k db
    else some (db, Promotion.idle)

-- The transaction for one candidate.
unfoldable pub promote_job : ℕ → NewIds → ℕ → Tx Promotion
unfolding promote_locked
promote_job now ids k db =
    promote_locked now ids k db (take_first (λ j. j.id == k) db.training_jobs)

tally : Promotion → PromoteResult → PromoteResult
tally Promotion.idle r = r
tally Promotion.promoted r = record r { promoted = r.promoted + 1 }
tally Promotion.failed r = record r { failed = r.failed + 1 }

-- The counters are raised inside the transaction, so an aborted one counts too.
settle : Bool → Option (Database × Promotion) → Database × PromoteResult → Database × PromoteResult
unfolding tally
settle aborted none s = s
settle true (some (after, p)) (db, r) = (db, tally p r)
settle false (some (after, p)) (db, r) = (after, tally p r)

promote_candidates : Env → List TrainingJob → Database × PromoteResult → Database × PromoteResult
unfolding settle promote_job
promote_candidates env [] s = s
promote_candidates env (job ∷ jobs) s =
    promote_candidates env jobs
      (settle (env.aborts job.id) (promote_job env.now (env.ids job.id) job.id s.0) s)

-- `promoteBlockedTrainingJobs`.
unfoldable pub promote_blocked_training_jobs : Env → Database → Database × PromoteResult
unfolding promote_candidates
promote_blocked_training_jobs env db =
    promote_candidates env
      (select (λ j. job_status_eq j.status TrainingJobStatus.blocked) db.training_jobs)
      (db, record { promoted = 0; failed = 0 })
