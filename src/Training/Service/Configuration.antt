-- ===== src/Training/Service/Configuration.antt =====
-- The checks on a job's configuration, its snapshot, and the first dispatch of a new row
-- (apps/api/src/training/training.service.ts).
use ikg_studio_model_trainin.Common.{
  ℕ, ◌+◌, Bool, true, false, not, Option, none, some, String, all, length, take_first, update,
  str_eq, ◌==◌, if◌then◌else◌,
}
use ikg_studio_model_trainin.Json.{text, number, Fields, field, end}
use ikg_studio_model_trainin.Http.{ApiError, Result, ok, err}
use ikg_studio_model_trainin.Database.{
  TrainingJobStatus, TimeColumn, TrainingJob, TrainingDataset, ModelStatus, Model, AuditActorType,
  AuditResult, AuditLog, JobExecution, Database, set_time,
}
use ikg_studio_model_trainin.Audit.{append}
use ikg_studio_model_trainin.Execution.{insert_execution}
use ikg_studio_model_trainin.Weights.{YoloTask, task_name, official_weights_problem}
use ikg_studio_model_trainin.Scheduler.Retry.{NewIds, new_execution, dispatch_of, insert_event}
use ikg_studio_model_trainin.Scheduler.Promote.{dependency_statuses, is_completed}

-- `snapshot`.
pub record Configuration : Type 0 where
  pub config_schema_version : ℕ
  pub training_dataset_id : ℕ
  pub base_model_id : Option ℕ
  pub task_type : YoloTask
  pub dataset_type_id : ℕ
  pub hyperparameters : String

-- Who acts, and what is drawn for it.
pub record Submission : Type 0 where
  pub actor_id : ℕ
  pub correlation_id : ℕ
  pub ids : NewIds

abbrev pub problem : String → ℕ → ApiError
problem code status = record { code = code; status = status }

-- What an error that is no HttpException becomes.
abbrev pub uncaught : ApiError
uncaught = record { code = "INTERNAL_ERROR"; status = 500 }

found_dataset : Option TrainingDataset → Result TrainingDataset
found_dataset none = err (problem "TRAINING_DATASET_NOT_FOUND" 404)
found_dataset (some ds) =
    if str_eq ds.status "READY"
    then ok ds
    else err (problem "TRAINING_DATASET_VERSION_NOT_READY" 409)

-- The dataset, where it is READY.
unfoldable pub ready_dataset : ℕ → Database → Result TrainingDataset
unfolding found_dataset
ready_dataset k db = found_dataset (take_first (λ d. d.id == k) db.training_datasets)

abbrev is_available : ModelStatus → Bool
is_available ModelStatus.available = true
is_available _ = false

abbrev same_task : YoloTask → YoloTask → Bool
same_task a b = str_eq (task_name a) (task_name b)

found_model : YoloTask → Option Model → Option ApiError
found_model task none = some (problem "MODEL_NOT_FOUND" 404)
found_model task (some m) =
    if not (is_available m.status)
    then some (problem "TRAINING_BASE_MODEL_NOT_AVAILABLE" 409)
    else if not (same_task m.task_type task)
    then some (problem "TRAINING_TASK_TYPE_MISMATCH" 400)
    else none

-- What is wrong with the base model, where there is one.
unfoldable pub model_problem : YoloTask → Option ℕ → Database → Option ApiError
unfolding found_model
model_problem task none db = none
model_problem task (some k) db = found_model task (take_first (λ m. m.id == k) db.models)

weights_error : Option String → Option ApiError
weights_error none = none
weights_error (some message) = some (problem "TRAINING_INVALID_HYPERPARAMETERS" 400)

unfoldable pub all_completed : ℕ → Database → Bool
all_completed k db = all is_completed (dependency_statuses k db)

unfoldable pub submitted_entry : ℕ → Submission → String → Fields → AuditLog
submitted_entry k by action metadata = record {
  actor_type = AuditActorType.user;
  actor_user_id = some by.actor_id;
  actor_ref = none;
  action_code = action;
  resource_type_code = "TRAINING_JOB";
  resource_id = k;
  before_snapshot = none;
  after_snapshot = none;
  diff = none;
  result = AuditResult.success;
  correlation_id = by.correlation_id;
  error_code = none;
  error_message = none;
  metadata = metadata;
}

-- The row of a job that is submitted, in the status given.
unfoldable pub submitted :
    ℕ → Submission → TrainingJobStatus → String → String → TrainingJob → TrainingJob
submitted now by target snapshot hash j = set_time TimeColumn.updated_at (some now) (
    set_time TimeColumn.submitted_at (some now) (record j {
      status = target;
      configuration_snapshot = snapshot;
      configuration_hash = hash;
      updated_by_user_id = some by.actor_id;
      row_version = j.row_version + 1;
    }))

unfoldable pub queued_now : ℕ → Submission → String → String → TrainingJob → TrainingJob
unfolding submitted
queued_now now by snapshot hash j =
    set_time TimeColumn.queued_at (some now)
      (submitted now by TrainingJobStatus.queued snapshot hash j)

abbrev pub update_job : ℕ → (TrainingJob → TrainingJob) → Database → Database
update_job k f db = record db { training_jobs = update (λ j. j.id == k) f db.training_jobs }

-- The attempt's row and its event; a violated constraint throws.
unfoldable pub enqueue_attempt : ℕ → JobExecution → Option Database → Result Database
enqueue_attempt now e none = err uncaught
enqueue_attempt now e (some db) = ok (insert_event (dispatch_of e now) db)

unfoldable pub add_attempt : ℕ → Submission → ℕ → ℕ → String → String → Database → Result Database
unfolding enqueue_attempt new_execution insert_execution
add_attempt now by k attempt snapshot hash db =
    let e = new_execution now by.ids k attempt by.correlation_id snapshot hash in
    enqueue_attempt now e (insert_execution e db)

-- `render` and `sha256` are JSON.stringify and the digest, `yolo_version` and `yolo_size` read the
-- two fields of the hyperparameters' JSON.
module _ (render : Configuration → String) (sha256 : String → String)
    (yolo_version yolo_size : String → Option String) where
  -- `assertOfficialWeightsExist`.
  unfoldable pub weights_problem : String → YoloTask → Option ℕ → Option ApiError
  unfolding weights_error official_weights_problem
  weights_problem hp task (some base) = none
  weights_problem hp task none =
      weights_error (official_weights_problem (yolo_version hp) (yolo_size hp) task)

  abbrev pub configuration : TrainingDataset → Option ℕ → String → Configuration
  configuration ds base hp = record {
    config_schema_version = 1;
    training_dataset_id = ds.id;
    base_model_id = base;
    task_type = ds.task_type;
    dataset_type_id = ds.dataset_type_id;
    hyperparameters = hp;
  }

  unfoldable pub dispatch_by :
      ℕ → Submission → ℕ → String → String → String → Database → Bool → Result Database
  unfolding submitted queued_now submitted_entry add_attempt append dependency_statuses
  dispatch_by now by k action snapshot hash db false = ok (
      append
        (submitted_entry k by action (
          field "configuration_hash" (text hash) (
            field "dependency_count" (number (length (dependency_statuses k db)))
              (field "to" (text "BLOCKED") end))))
        (update_job k (submitted now by TrainingJobStatus.blocked snapshot hash) db))
  dispatch_by now by k action snapshot hash db true = add_attempt now by k 1 snapshot hash (
      append
        (submitted_entry k by action
          (field "configuration_hash" (text hash) (field "to" (text "QUEUED") end)))
        (update_job k (queued_now now by snapshot hash) db))

  -- `_dispatchInitial`, of a row that was just inserted.
  unfoldable pub dispatch_initial :
      ℕ → Submission → ℕ → TrainingDataset → String → Option ℕ → String → Database → Result Database
  unfolding dispatch_by all_completed
  dispatch_initial now by k ds hp base action db =
      let snapshot = render (configuration ds base hp) in
      dispatch_by now by k action snapshot (sha256 snapshot) db (all_completed k db)
