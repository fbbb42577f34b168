-- ===== src/Tests/Data.antt =====
-- A database with two training jobs, one execution of the first, a benchmark run and an inference
-- run.
use ikg_studio_model_trainin.Common.{ℕ, false, [], ◌∷◌, none, some}
use ikg_studio_model_trainin.Database.{
  TrainingJobStatus, TrainingJob, JobType, JobExecutionStatus, JobExecution,
  BenchmarkEvaluationStatus, BenchmarkEvaluation, BenchmarkRunStatus, BenchmarkRun,
  InferenceRunDatasetStatus, InferenceRunDataset, InferenceRunStatus, InferenceRun, Worker,
  WorkerStatus, Database,
}
use ikg_studio_model_trainin.Scheduler.Retry.{NewIds}
use ikg_studio_model_trainin.Scheduler.Retry.Stage.{Env}

abbrev pub job_at : ℕ → TrainingJobStatus → TrainingJob
job_at k s = record {
  id = k;
  name = "baseline";
  dataset_type_id = 6;
  cloned_from_job_id = none;
  status = s;
  training_dataset_id = some 5;
  base_model_id = some 7;
  hyperparameters = "{}";
  configuration_hash = "c0ffee";
  configuration_snapshot = "{}";
  row_version = 1;
  time = λ c. none;
  cancelled_by_user_id = none;
  stop_requested_by_user_id = none;
  updated_by_user_id = none;
  failure_stage = none;
  failure_code = none;
  failure_message = none;
  result_model_id = none;
}

abbrev pub first_attempt : JobExecution
first_attempt = record {
  id = 10;
  job_type = JobType.training;
  job_id = 1;
  attempt_number = 1;
  status = JobExecutionStatus.running;
  assignment_token = 77;
  configuration_snapshot = "{}";
  configuration_hash = "c0ffee";
  started_at = some 100;
  heartbeat_at = some 120;
  finished_at = none;
  error_code = none;
  error_message = none;
  correlation_id = 3;
  created_at = 90;
}

abbrev pub evaluation : BenchmarkEvaluation
evaluation = record {
  id = 20;
  benchmark_run_id = 2;
  status = BenchmarkEvaluationStatus.running;
  finished_at = none;
  failure_code = none;
  failure_message = none;
}

abbrev pub benchmark_run : BenchmarkRun
benchmark_run = record {
  id = 2;
  status = BenchmarkRunStatus.running;
  completed_count = 0;
  failed_count = 0;
  finished_at = none;
  updated_at = 0;
}

abbrev pub run_dataset : InferenceRunDataset
run_dataset = record {
  id = 30;
  inference_run_id = 3;
  status = InferenceRunDatasetStatus.running;
  finished_at = none;
  stopped_at = none;
  failure_code = none;
  failure_message = none;
}

abbrev pub inference_run : InferenceRun
inference_run = record {
  id = 3;
  status = InferenceRunStatus.running;
  completed_count = 0;
  failed_count = 0;
  finished_at = none;
  stopped_at = none;
  updated_at = 0;
}

abbrev pub worker : Worker
worker = record {
  worker_key = "gpu-1";
  status = WorkerStatus.online;
  disabled_at = none;
  last_heartbeat_at = some 800;
  updated_at = 800;
}

abbrev pub database : TrainingJobStatus → TrainingJobStatus → Database
database s t = record {
  training_jobs = job_at 1 s ∷ job_at 2 t ∷ [];
  training_job_dependencies = record { job_id = 2; depends_on_job_id = 1 } ∷ [];
  job_executions = first_attempt ∷ [];
  outbox_events = [];
  audit_logs = [];
  benchmark_evaluations = evaluation ∷ [];
  benchmark_runs = benchmark_run ∷ [];
  inference_run_datasets = run_dataset ∷ [];
  inference_runs = inference_run ∷ [];
  model_conversions = [];
  source_dataset_scans = [];
  source_datasets = [];
  training_datasets = [];
  models = [];
  model_ingest_tasks = [];
  workers = worker ∷ [];
  dataset_types = record { id = 6; dataset_path = some "/data/cats" } ∷ [];
  dataset_type_reindexes = [];
}

abbrev pub new_ids : NewIds
new_ids = record { execution_id = 11; assignment_token = 78; correlation_id = 4 }

abbrev pub env : Env
env = record { now = 1000; ids = λ k. new_ids; aborts = λ k. false }
