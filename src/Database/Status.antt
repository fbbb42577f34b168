-- ===== src/Database/Status.antt =====
-- The enumerated columns (packages/db/src/index.ts). `index` numbers the values of an enumeration,
-- so that `===` is a comparison of numbers.
use ikg_studio_model_trainin.Common.{ℕ, Bool, String, ◌==◌}

pub data TrainingJobStatus : Type 0 where
  scheduled queued preparing running stopping : TrainingJobStatus
  completed failed cancelled stopped blocked : TrainingJobStatus

abbrev pub job_status_index : TrainingJobStatus → ℕ
job_status_index scheduled = 0
job_status_index queued = 1
job_status_index preparing = 2
job_status_index running = 3
job_status_index stopping = 4
job_status_index completed = 5
job_status_index failed = 6
job_status_index cancelled = 7
job_status_index stopped = 8
job_status_index blocked = 9

abbrev pub job_status_eq : TrainingJobStatus → TrainingJobStatus → Bool
job_status_eq s t = job_status_index s == job_status_index t

-- The texts that the enumerations stand for.
abbrev pub job_status_name : TrainingJobStatus → String
job_status_name scheduled = "SCHEDULED"
job_status_name queued = "QUEUED"
job_status_name preparing = "PREPARING"
job_status_name running = "RUNNING"
job_status_name stopping = "STOPPING"
job_status_name completed = "COMPLETED"
job_status_name failed = "FAILED"
job_status_name cancelled = "CANCELLED"
job_status_name stopped = "STOPPED"
job_status_name blocked = "BLOCKED"

pub data JobExecutionStatus : Type 0 where
  assigned claimed preparing running succeeded failed cancelled stopped lost : JobExecutionStatus

pub data JobType : Type 0 where
  training benchmark_evaluation dataset_build dataset_scan training_dataset_scan : JobType
  model_ingest model_conversion model_delete cleanup maintenance inference : JobType

abbrev pub job_type_index : JobType → ℕ
job_type_index training = 0
job_type_index benchmark_evaluation = 1
job_type_index dataset_build = 2
job_type_index dataset_scan = 3
job_type_index training_dataset_scan = 4
job_type_index model_ingest = 5
job_type_index model_conversion = 6
job_type_index model_delete = 7
job_type_index cleanup = 8
job_type_index maintenance = 9
job_type_index inference = 10

abbrev pub job_type_name : JobType → String
job_type_name training = "TRAINING"
job_type_name benchmark_evaluation = "BENCHMARK_EVALUATION"
job_type_name dataset_build = "DATASET_BUILD"
job_type_name dataset_scan = "DATASET_SCAN"
job_type_name training_dataset_scan = "TRAINING_DATASET_SCAN"
job_type_name model_ingest = "MODEL_INGEST"
job_type_name model_conversion = "MODEL_CONVERSION"
job_type_name model_delete = "MODEL_DELETE"
job_type_name cleanup = "CLEANUP"
job_type_name maintenance = "MAINTENANCE"
job_type_name inference = "INFERENCE"

abbrev pub job_type_eq : JobType → JobType → Bool
job_type_eq s t = job_type_index s == job_type_index t

pub data BenchmarkRunStatus : Type 0 where
  queued running completed partially_failed failed cancelled stopping stopped : BenchmarkRunStatus

pub data BenchmarkEvaluationStatus : Type 0 where
  pending queued running completed failed cancelled : BenchmarkEvaluationStatus
  stopping stopped : BenchmarkEvaluationStatus

pub data InferenceRunStatus : Type 0 where
  queued running completed partially_failed failed cancelled stopping stopped : InferenceRunStatus
  deleted : InferenceRunStatus

pub data InferenceRunDatasetStatus : Type 0 where
  queued running completed failed cancelled stopping stopped : InferenceRunDatasetStatus

pub data ModelConversionStatus : Type 0 where
  queued running succeeded failed : ModelConversionStatus

pub data DatasetScanStatus : Type 0 where
  pending running completed failed cancelled : DatasetScanStatus

pub data SourceDatasetStatus : Type 0 where
  registered scanning ready invalid archived : SourceDatasetStatus

pub data ModelStatus : Type 0 where
  pending available invalid failed archived deleted : ModelStatus

pub data WorkerStatus : Type 0 where
  online idle busy draining offline error : WorkerStatus

pub data AuditActorType : Type 0 where
  user worker scheduler system api : AuditActorType

pub data AuditResult : Type 0 where
  success failure : AuditResult
