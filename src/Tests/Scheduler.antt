-- ===== src/Tests/Scheduler.antt =====
-- The scheduler's stages at concrete databases.
use ikg_studio_model_trainin.Common.{
  ◌≤◌, ◌≡◌, refl, ◌+◌, ◌⊎◌, true, false, [], ◌∷◌, none, some, any, all, take_first, ◌==◌, arith,
}
use ikg_studio_model_trainin.Database.{
  TrainingJobStatus, TimeColumn, set_time, TrainingJob, Database,
}
use ikg_studio_model_trainin.Execution.{max_attempt}
use ikg_studio_model_trainin.Scheduler.Retry.{
  RetryDispatchOptions, RetryDispatched, backoff, dispatch_training_retry,
}
use ikg_studio_model_trainin.Scheduler.Retry.Stage.{FailedRetryOptions, retry_failed_training_jobs}
use ikg_studio_model_trainin.Scheduler.Retry.Dispatch.{
  Dispatched, dispatch-Dispatched, backoff_bounds,
}
use ikg_studio_model_trainin.Scheduler.Retry.Failed.{
  Skipped, Retried, retry_failed_job-outcome, retry_stage_bounded,
}
use ikg_studio_model_trainin.Scheduler.Promote.{
  Promotion, dependency_statuses, is_dead, is_completed, is_blocked_job, promote_job,
}
use ikg_studio_model_trainin.Scheduler.Promote.Outcome.{IsFailed, IsPromoted, promote_job-outcome}
use ikg_studio_model_trainin.Scheduler.Reconcile.Benchmark.{is_active_evaluation}
use ikg_studio_model_trainin.Scheduler.Reconcile.Benchmark.Finish.{
  Finalised as FinalisedBenchmark, finalize_benchmark-Finalised,
}
use ikg_studio_model_trainin.Scheduler.Reconcile.Inference.{is_active_dataset}
use ikg_studio_model_trainin.Scheduler.Reconcile.Inference.Ending.{
  Finalised as FinalisedInference, finalize_inference-Finalised,
}
use ikg_studio_model_trainin.Scheduler.Reconcile.Training.{RetryOptions}
use ikg_studio_model_trainin.Scheduler.Reconcile.Training.Outcome.{Ending, recover_training-Ending}
use ikg_studio_model_trainin.Scheduler.Tick.{Config, Run, stages, tick}
use ikg_studio_model_trainin.Scheduler.Tick.Laws.{tick-closed}
use ikg_studio_model_trainin.Scheduler.Tick.Leader.{
  Phase, is_adrift, Cluster, moved, Step, Reaches, at_rest, stages_exclusive,
}
use ikg_studio_model_trainin.Tests.Data.{
  job_at, first_attempt, evaluation, run_dataset, database, new_ids, env,
}

abbrev failed_job : TrainingJob
failed_job = set_time TimeColumn.finished_at (some 900) (job_at 1 TrainingJobStatus.failed)

abbrev failed_database : Database
failed_database = record (database TrainingJobStatus.failed TrainingJobStatus.blocked) {
  training_jobs = failed_job ∷ job_at 2 TrainingJobStatus.blocked ∷ [];
}

abbrev dispatch_options : RetryDispatchOptions
dispatch_options = record {
  job_id = 1;
  correlation_id = 3;
  backoff_base_s = 20;
  backoff_cap_s = 570;
  reason = "error_retry:OOM";
  lost_execution_id = none;
}

abbrev failed_options : FailedRetryOptions
failed_options = record {
  max_training_attempts = 3;
  backoff_base_s = 20;
  stale_timeout_s = 600;
  window_s = 3600;
}

backoff_bounds_example :
    (20 ≤ backoff 20 570 2) × (backoff 20 570 5 ≤ 570) × (backoff 20 570 2 ≤ backoff 20 570 5)
backoff_bounds_example = backoff_bounds 20 570 2 5 (omega arith) (omega arith)

dispatch-Dispatched_example :
    (after : Database) × (r : RetryDispatched) × (dispatch_training_retry 1000 new_ids
        dispatch_options failed_database
      ≡ some (after, r))
    × Dispatched 1000 new_ids dispatch_options failed_database after r
dispatch-Dispatched_example = dispatch-Dispatched 1000 new_ids dispatch_options failed_database refl

retry_failed_job-outcome_example :
    Skipped 1000 new_ids failed_options failed_job failed_database
    ⊎ Retried 1000 new_ids failed_options failed_job failed_database
retry_failed_job-outcome_example =
    retry_failed_job-outcome 1000 new_ids failed_options failed_job failed_database refl

retry_stage_bounded_example :
    max_attempt 1 (retry_failed_training_jobs env failed_options failed_database).0.job_executions
    ≤ 3
unfolding max_attempt
retry_stage_bounded_example = retry_stage_bounded env failed_options failed_database 1 (omega arith)

abbrev waiting : TrainingJob
waiting = job_at 2 TrainingJobStatus.blocked

blocked_test : is_blocked_job 2 waiting ≡ true
unfolding is_blocked_job
blocked_test = refl

promote_job-outcome_example :
    ((any is_dead (dependency_statuses 2 failed_database) ≡ true)
      × IsFailed 1000 new_ids 2 failed_database waiting refl blocked_test)
    ⊎ ((all is_completed (dependency_statuses 2 failed_database) ≡ true)
        × IsPromoted 1000 new_ids 2 failed_database waiting refl blocked_test)
    ⊎ ((any is_dead (dependency_statuses 2 failed_database) ≡ false)
        × (all is_completed (dependency_statuses 2 failed_database) ≡ false)
        × (promote_job 1000 new_ids 2 failed_database ≡ some (failed_database, Promotion.idle)))
promote_job-outcome_example =
    promote_job-outcome 1000 new_ids 2 failed_database waiting refl blocked_test

abbrev retry_options : RetryOptions
retry_options = record { max_training_attempts = 3; backoff_base_s = 20 }

abbrev running_database : Database
running_database = database TrainingJobStatus.running TrainingJobStatus.blocked

recover_training-Ending_example :
    Ending 1000 new_ids 600 retry_options first_attempt running_database
      (job_at 1 TrainingJobStatus.running)
      refl
recover_training-Ending_example =
    recover_training-Ending 1000 new_ids 600 retry_options first_attempt running_database
      (job_at 1 TrainingJobStatus.running) refl refl

finalize_benchmark-Finalised_example : FinalisedBenchmark 1000 20 3 running_database evaluation
unfolding is_active_evaluation
finalize_benchmark-Finalised_example =
    finalize_benchmark-Finalised 1000 20 3 running_database evaluation refl refl

finalize_inference-Finalised_example : FinalisedInference 1000 30 3 running_database run_dataset
unfolding is_active_dataset
finalize_inference-Finalised_example =
    finalize_inference-Finalised 1000 30 3 running_database run_dataset refl refl

abbrev config : Config
config = record {
  execution_stale_timeout_s = 600;
  worker_offline_timeout_s = 90;
  dataset_reindex_interval_s = 3600;
  max_training_attempts = 3;
  backoff_base_s = 20;
  failed_window_s = 3600;
}

abbrev run : Run
run = record { env = env; correlations = λ k. k + 100; throws = false }

abbrev stopped_database : Database
stopped_database = database TrainingJobStatus.stopped TrainingJobStatus.blocked

tick-closed_example :
    take_first (λ x. x.id == 1) (tick config (λ s. run) false true stopped_database).training_jobs
    ≡ some (job_at 1 TrainingJobStatus.stopped)
tick-closed_example =
    tick-closed config (λ s. run) false true stopped_database 1 (job_at 1 TrainingJobStatus.stopped)
      refl refl

-- Instance 4 is in its stages and loses the connection; the server ends the session, and instance 5
-- is granted the lock.
abbrev asking : Cluster
asking = moved 4 Phase.asking at_rest

abbrev leading : Cluster
leading = record (moved 4 (Phase.working stages) asking) { holder = some 4 }

abbrev cut_off : Cluster
cut_off = moved 4 (Phase.adrift stages) leading

abbrev given_up : Cluster
given_up = record cut_off { holder = none }

abbrev second_asking : Cluster
second_asking = moved 5 Phase.asking given_up

abbrev both : Cluster
both = record (moved 5 (Phase.working stages) second_asking) { holder = some 5 }

abbrev leads : Reaches at_rest leading
leads =
    Reaches.step (Reaches.step Reaches.here (Step.starts 4 at_rest refl))
      (Step.granted 4 asking refl refl)

abbrev takes_over : Reaches at_rest both
takes_over =
    Reaches.step
      (Reaches.step
        (Reaches.step (Reaches.step leads (Step.severed 4 leading stages refl))
          (Step.session_ends 4 cut_off refl refl))
        (Step.starts 5 given_up refl))
      (Step.granted 5 second_asking refl refl)

stages_exclusive_example : (is_adrift (both.phase 4) ≡ true) ⊎ (is_adrift (both.phase 5) ≡ true)
stages_exclusive_example = stages_exclusive 4 5 takes_over refl refl (λ h. omega (arith, h))
