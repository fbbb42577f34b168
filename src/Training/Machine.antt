-- ===== src/Training/Machine.antt =====
-- The guarded status transition of a training job
-- (apps/api/src/training/training-state-machine.ts).
pub mod Laws
pub mod Paths
use Prim.Native.String
use ikg_studio_model_trainin.Common.{
  ℕ, zero, suc, ◌+◌, Bool, true, false, List, [], ◌∷◌, String, Option, none, some, any, take_first,
  update, text_slice, ◌==◌, if◌then◌else◌,
}
use ikg_studio_model_trainin.Json.{Json, text, Fields, end, field}
use ikg_studio_model_trainin.Database.{
  TrainingJobStatus, job_status_eq, job_status_name, TimeColumn, time_column_eq, TrainingJob,
  AuditActorType, AuditResult, Database, set_time,
}
use ikg_studio_model_trainin.Audit.{append}
use ikg_studio_model_trainin.Http.{ApiError, Result, ok, err}

-- The `LEGAL` table.
unfoldable pub legal : TrainingJobStatus → List TrainingJobStatus
legal TrainingJobStatus.scheduled =
    TrainingJobStatus.queued ∷ TrainingJobStatus.blocked ∷ TrainingJobStatus.cancelled ∷ []
legal TrainingJobStatus.blocked =
    TrainingJobStatus.queued ∷ TrainingJobStatus.failed ∷ TrainingJobStatus.cancelled ∷ []
legal TrainingJobStatus.queued =
    TrainingJobStatus.preparing ∷ TrainingJobStatus.cancelled ∷ TrainingJobStatus.failed ∷ []
legal TrainingJobStatus.preparing =
    TrainingJobStatus.running ∷ TrainingJobStatus.cancelled ∷ TrainingJobStatus.failed ∷ []
legal TrainingJobStatus.running =
    TrainingJobStatus.stopping ∷ TrainingJobStatus.completed ∷ TrainingJobStatus.failed ∷ []
legal TrainingJobStatus.stopping = TrainingJobStatus.stopped ∷ TrainingJobStatus.failed ∷ []
legal TrainingJobStatus.completed = TrainingJobStatus.queued ∷ TrainingJobStatus.blocked ∷ []
legal TrainingJobStatus.failed = TrainingJobStatus.queued ∷ TrainingJobStatus.blocked ∷ []
legal TrainingJobStatus.cancelled = TrainingJobStatus.queued ∷ TrainingJobStatus.blocked ∷ []
legal TrainingJobStatus.stopped = TrainingJobStatus.queued ∷ TrainingJobStatus.blocked ∷ []

-- `LEGAL[from].includes(to)`.
unfoldable pub is_legal : TrainingJobStatus → TrainingJobStatus → Bool
unfolding legal
is_legal from to = any (λ s. job_status_eq s to) (legal from)

-- `TIMESTAMP_FOR[to]`.
unfoldable pub timestamp_for : TrainingJobStatus → Option TimeColumn
timestamp_for TrainingJobStatus.queued = some TimeColumn.queued_at
timestamp_for TrainingJobStatus.preparing = some TimeColumn.preparing_at
timestamp_for TrainingJobStatus.running = some TimeColumn.started_at
timestamp_for TrainingJobStatus.completed = some TimeColumn.finished_at
timestamp_for TrainingJobStatus.failed = some TimeColumn.finished_at
timestamp_for TrainingJobStatus.stopped = some TimeColumn.stopped_at
timestamp_for TrainingJobStatus.cancelled = some TimeColumn.cancelled_at
timestamp_for TrainingJobStatus.stopping = some TimeColumn.stop_requested_at
timestamp_for TrainingJobStatus.scheduled = none
timestamp_for TrainingJobStatus.blocked = none

-- One column of `extraSet`: those that the callers name.
pub data Assignment : Type 0 where
  set_timestamp : TimeColumn → ℕ → Assignment
  set_configuration_snapshot : String → Assignment
  set_configuration_hash : String → Assignment
  set_updated_by_user_id : ℕ → Assignment
  set_stop_requested_by_user_id : ℕ → Assignment
  set_cancelled_by_user_id : ℕ → Assignment

pub record Failure : Type 0 where
  pub stage : String
  pub code : String
  pub message : String

pub record TransitionInput : Type 0 where
  pub job_id : ℕ
  pub to : TrainingJobStatus
  pub actor_type : AuditActorType
  pub actor_user_id : Option ℕ
  pub actor_ref : Option String
  pub correlation_id : ℕ
  pub failure : Option Failure
  pub extra_set : List Assignment
  pub audit_action : String
  pub metadata : Fields

abbrev pub job_not_found : ApiError
job_not_found = record { code = "TRAINING_JOB_NOT_FOUND"; status = 404 }

abbrev pub invalid_transition : ApiError
invalid_transition = record { code = "TRAINING_INVALID_TRANSITION"; status = 409 }

unfoldable pub assign : Assignment → TrainingJob → TrainingJob
assign (set_timestamp c t) j = set_time c (some t) j
assign (set_configuration_snapshot s) j = record j { configuration_snapshot = s }
assign (set_configuration_hash s) j = record j { configuration_hash = s }
assign (set_updated_by_user_id u) j = record j { updated_by_user_id = some u }
assign (set_stop_requested_by_user_id u) j = record j { stop_requested_by_user_id = some u }
assign (set_cancelled_by_user_id u) j = record j { cancelled_by_user_id = some u }

-- The spread of `extraSet`: later entries win.
unfoldable pub assign_all : List Assignment → TrainingJob → TrainingJob
assign_all [] j = j
assign_all (a ∷ more) j = assign_all more (assign a j)

-- `tsCol in set`, where `set` holds `updated_at` and the columns of `extraSet`.
unfoldable pub names_column : TimeColumn → Assignment → Bool
names_column c (set_timestamp d t) = time_column_eq d c
names_column c _ = false

stamp_column : ℕ → List Assignment → Option TimeColumn → TrainingJob → TrainingJob
unfolding names_column
stamp_column now extra none j = j
stamp_column now extra (some c) j =
    if any (names_column c) extra then j else set_time c (some now) j

set_failure : Option Failure → TrainingJob → TrainingJob
unfolding text_slice
set_failure none j = j
set_failure (some f) j = record j {
  failure_stage = some f.stage;
  failure_code = some f.code;
  failure_message = some (text_slice 1000 f.message);
}

-- The row that the UPDATE leaves.
unfoldable pub transitioned : ℕ → TransitionInput → TrainingJob → TrainingJob
unfolding assign_all assign stamp_column timestamp_for set_failure
transitioned now input job =
    let based =
      set_time TimeColumn.updated_at (some now)
        (record job { status = input.to; row_version = job.row_version + 1 }) in
    set_failure input.failure
      (stamp_column now input.extra_set (timestamp_for input.to) (assign_all input.extra_set based))

abbrev result_of : Option Failure → AuditResult
result_of none = AuditResult.success
result_of (some f) = AuditResult.failure

abbrev code_of : Option Failure → Option String
code_of none = none
code_of (some f) = some f.code

abbrev message_of : Option Failure → Option String
message_of none = none
message_of (some f) = some f.message

-- The statement UPDATE and the audit entry.
unfoldable pub apply_transition : ℕ → TransitionInput → TrainingJob → Database → Database
unfolding transitioned append
apply_transition now input job db =
    append
      (record {
        actor_type = input.actor_type;
        actor_user_id = input.actor_user_id;
        actor_ref = input.actor_ref;
        action_code = input.audit_action;
        resource_type_code = "TRAINING_JOB";
        resource_id = input.job_id;
        before_snapshot = none;
        after_snapshot = none;
        diff = none;
        result = result_of input.failure;
        correlation_id = input.correlation_id;
        error_code = code_of input.failure;
        error_message = message_of input.failure;
        metadata =
            field "from" (text (job_status_name job.status))
              (field "to" (text (job_status_name input.to)) input.metadata);
      })
      (record db {
        training_jobs =
            update (λ j. j.id == input.job_id) (λ j. transitioned now input job) db.training_jobs;
      })

guard_transition : ℕ → TransitionInput → Database → Option TrainingJob → Result Database
unfolding is_legal apply_transition
guard_transition now input db none = err job_not_found
guard_transition now input db (some job) =
    if is_legal job.status input.to
    then ok (apply_transition now input job db)
    else err invalid_transition

-- `transition`, with the row locked for the whole transaction.
unfoldable pub transition : ℕ → TransitionInput → Database → Result Database
unfolding guard_transition
transition now input db =
    guard_transition now input db (take_first (λ j. j.id == input.job_id) db.training_jobs)
