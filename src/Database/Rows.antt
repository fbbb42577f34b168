-- ===== src/Database/Rows.antt =====
-- The rows of the tables (packages/db/src/index.ts), with the columns that the modelled code uses.
use ikg_studio_model_trainin.Common.{
  ℕ, Bool, ◌==◌, Option, List, String, ◌++◌, ◌∷◌, [], if◌then◌else◌,
}
use ikg_studio_model_trainin.Json.{Fields}
use ikg_studio_model_trainin.Weights.{YoloTask}
use ikg_studio_model_trainin.Database.Status.{
  TrainingJobStatus, JobExecutionStatus, JobType, BenchmarkRunStatus, BenchmarkEvaluationStatus,
  InferenceRunStatus, InferenceRunDatasetStatus, ModelConversionStatus, DatasetScanStatus,
  SourceDatasetStatus, ModelStatus, WorkerStatus, AuditActorType, AuditResult,
}

-- The nullable timestamp, text and reference columns of `training_jobs`. A row reads them by
-- column, so that an UPDATE is a list of assignments.
pub data TimeColumn : Type 0 where
  submitted_at queued_at preparing_at started_at finished_at : TimeColumn
  cancelled_at stop_requested_at stopped_at updated_at : TimeColumn

abbrev pub time_column_index : TimeColumn → ℕ
time_column_index submitted_at = 0
time_column_index queued_at = 1
time_column_index preparing_at = 2
time_column_index started_at = 3
time_column_index finished_at = 4
time_column_index cancelled_at = 5
time_column_index stop_requested_at = 6
time_column_index stopped_at = 7
time_column_index updated_at = 8

abbrev pub time_column_eq : TimeColumn → TimeColumn → Bool
time_column_eq c d = time_column_index c == time_column_index d

pub record TrainingJob : Type 0 where
  pub id : ℕ
  pub name : String
  pub dataset_type_id : ℕ
  pub cloned_from_job_id : Option ℕ
  pub status : TrainingJobStatus
  pub training_dataset_id : Option ℕ
  pub base_model_id : Option ℕ
  pub hyperparameters : String
  pub configuration_hash : String
  pub configuration_snapshot : String
  pub row_version : ℕ
  pub time : TimeColumn → Option ℕ
  pub cancelled_by_user_id : Option ℕ
  pub stop_requested_by_user_id : Option ℕ
  pub updated_by_user_id : Option ℕ
  pub failure_stage : Option String
  pub failure_code : Option String
  pub failure_message : Option String
  pub result_model_id : Option ℕ

pub record TrainingJobDependency : Type 0 where
  pub job_id : ℕ
  pub depends_on_job_id : ℕ

pub record JobExecution : Type 0 where
  pub id : ℕ
  pub job_type : JobType
  pub job_id : ℕ
  pub attempt_number : ℕ
  pub status : JobExecutionStatus
  pub assignment_token : ℕ
  pub configuration_snapshot : String
  pub configuration_hash : String
  pub started_at : Option ℕ
  pub heartbeat_at : Option ℕ
  pub finished_at : Option ℕ
  pub error_code : Option String
  pub error_message : Option String
  pub correlation_id : ℕ
  pub created_at : ℕ

-- The payloads that the modelled code enqueues.
pub data Payload : Type 0 where
  training_dispatch :
      (job_execution_id assignment_token training_job_id correlation_id attempt_number : ℕ)
      → Payload
  reindex : (dataset_type_id correlation_id : ℕ) → Payload
  sessions_revoke : (user_id : ℕ) (reason : String) → Payload

pub record OutboxEvent : Type 0 where
  pub event_type : String
  pub aggregate_type_code : String
  pub aggregate_id : ℕ
  pub payload : Payload
  pub correlation_id : ℕ
  pub available_at : ℕ

pub record AuditLog : Type 0 where
  pub actor_type : AuditActorType
  pub actor_user_id : Option ℕ
  pub actor_ref : Option String
  pub action_code : String
  pub resource_type_code : String
  pub resource_id : ℕ
  pub result : AuditResult
  pub correlation_id : ℕ
  pub error_code : Option String
  pub error_message : Option String
  pub before_snapshot : Option Fields
  pub after_snapshot : Option Fields
  pub diff : Option Fields
  pub metadata : Fields

pub record BenchmarkEvaluation : Type 0 where
  pub id : ℕ
  pub benchmark_run_id : ℕ
  pub status : BenchmarkEvaluationStatus
  pub finished_at : Option ℕ
  pub failure_code : Option String
  pub failure_message : Option String

pub record BenchmarkRun : Type 0 where
  pub id : ℕ
  pub status : BenchmarkRunStatus
  pub completed_count : ℕ
  pub failed_count : ℕ
  pub finished_at : Option ℕ
  pub updated_at : ℕ

pub record InferenceRunDataset : Type 0 where
  pub id : ℕ
  pub inference_run_id : ℕ
  pub status : InferenceRunDatasetStatus
  pub finished_at : Option ℕ
  pub stopped_at : Option ℕ
  pub failure_code : Option String
  pub failure_message : Option String

pub record InferenceRun : Type 0 where
  pub id : ℕ
  pub status : InferenceRunStatus
  pub completed_count : ℕ
  pub failed_count : ℕ
  pub finished_at : Option ℕ
  pub stopped_at : Option ℕ
  pub updated_at : ℕ

pub record ModelConversion : Type 0 where
  pub id : ℕ
  pub status : ModelConversionStatus
  pub failure_code : Option String
  pub failure_message : Option String
  pub finished_at : Option ℕ
  pub row_version : ℕ

pub record SourceDatasetScan : Type 0 where
  pub id : ℕ
  pub source_dataset_id : ℕ
  pub status : DatasetScanStatus
  pub finished_at : Option ℕ
  pub error_code : Option String
  pub error_message : Option String

pub record SourceDataset : Type 0 where
  pub id : ℕ
  pub status : SourceDatasetStatus
  pub latest_scan_id : Option ℕ
  pub updated_at : ℕ

-- `status` is a text column in this table, the next and `DatasetTypeReindex`.
pub record TrainingDataset : Type 0 where
  pub id : ℕ
  pub dataset_type_id : ℕ
  pub task_type : YoloTask
  pub status : String
  pub failure_code : Option String
  pub failure_message : Option String
  pub build_finished_at : Option ℕ

pub record Model : Type 0 where
  pub id : ℕ
  pub task_type : YoloTask
  pub status : ModelStatus

pub record ModelIngestTask : Type 0 where
  pub id : ℕ
  pub status : String
  pub failure_code : Option String
  pub failure_message : Option String
  pub finished_at : Option ℕ

pub record Worker : Type 0 where
  pub worker_key : String
  pub status : WorkerStatus
  pub disabled_at : Option ℕ
  pub last_heartbeat_at : Option ℕ
  pub updated_at : ℕ

pub record DatasetType : Type 0 where
  pub id : ℕ
  pub dataset_path : Option String

pub record DatasetTypeReindex : Type 0 where
  pub dataset_type_id : ℕ
  pub status : String
  pub correlation_id : ℕ
  pub started_at : ℕ
  pub heartbeat_at : Option ℕ
  pub finished_at : Option ℕ
  pub error_message : Option String

pub record Database : Type 0 where
  pub training_jobs : List TrainingJob
  pub training_job_dependencies : List TrainingJobDependency
  pub job_executions : List JobExecution
  pub outbox_events : List OutboxEvent
  pub audit_logs : List AuditLog
  pub benchmark_evaluations : List BenchmarkEvaluation
  pub benchmark_runs : List BenchmarkRun
  pub inference_run_datasets : List InferenceRunDataset
  pub inference_runs : List InferenceRun
  pub model_conversions : List ModelConversion
  pub source_dataset_scans : List SourceDatasetScan
  pub source_datasets : List SourceDataset
  pub training_datasets : List TrainingDataset
  pub models : List Model
  pub model_ingest_tasks : List ModelIngestTask
  pub workers : List Worker
  pub dataset_types : List DatasetType
  pub dataset_type_reindexes : List DatasetTypeReindex

-- A transaction's body returns the database that it leaves, or throws.
abbrev pub Tx : Type 0 → Type 0
Tx A = Database → Option (Database × A)

-- `INSERT INTO audit_logs`.
abbrev pub insert_audit : AuditLog → Database → Database
insert_audit a db = record db { audit_logs = db.audit_logs ++ a ∷ [] }

-- `set[column] = value` on a job's timestamps.
abbrev pub set_time : TimeColumn → Option ℕ → TrainingJob → TrainingJob
set_time c v j = record j { time = λ d. if time_column_eq d c then v else j.time d }
