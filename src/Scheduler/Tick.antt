-- ===== src/Scheduler/Tick.antt =====
-- The scheduler's tick (apps/scheduler/src/index.ts): the five stages behind the leader lock and
-- the `isRunning` flag.
pub mod Laws
pub mod Leader
use ikg_studio_model_trainin.Common.{
  ℕ, Bool, true, false, List, [], ◌∷◌, Option, none, some, if◌then◌else◌,
}
use ikg_studio_model_trainin.Database.{Database}
use ikg_studio_model_trainin.Scheduler.Retry.Stage.{
  Env, FailedRetryOptions, retry_failed_training_jobs,
}
use ikg_studio_model_trainin.Scheduler.Promote.{promote_blocked_training_jobs}
use ikg_studio_model_trainin.Scheduler.Reconcile.{reconcile_stale_executions}
use ikg_studio_model_trainin.Scheduler.Reconcile.Training.{RetryOptions}
use ikg_studio_model_trainin.Scheduler.Workers.{mark_stale_workers_offline}
use ikg_studio_model_trainin.Scheduler.Reindex.{dispatch_periodic_reindexes}

-- The part of `config` that the stages read.
pub record Config : Type 0 where
  pub execution_stale_timeout_s : ℕ
  pub worker_offline_timeout_s : ℕ
  pub dataset_reindex_interval_s : ℕ
  pub max_training_attempts : ℕ
  pub backoff_base_s : ℕ
  pub failed_window_s : ℕ

pub data Stage : Type 0 where
  reconcile retry promote workers reindex : Stage

-- The order of `runStages`.
abbrev pub stages : List Stage
stages = Stage.reconcile ∷ Stage.retry ∷ Stage.promote ∷ Stage.workers ∷ Stage.reindex ∷ []

-- What one run of a stage meets: its clock, identifiers and aborts, and whether the query that it
-- starts with throws.
pub record Run : Type 0 where
  pub env : Env
  pub correlations : ℕ → ℕ
  pub throws : Bool

abbrev pub retry_options : Config → RetryOptions
retry_options c = record {
  max_training_attempts = c.max_training_attempts;
  backoff_base_s = c.backoff_base_s;
}

abbrev pub failed_options : Config → FailedRetryOptions
failed_options c = record {
  max_training_attempts = c.max_training_attempts;
  backoff_base_s = c.backoff_base_s;
  stale_timeout_s = c.execution_stale_timeout_s;
  window_s = c.failed_window_s;
}

unfoldable pub stage_body : Config → Run → Stage → Database → Database
stage_body c run Stage.reconcile db =
    (reconcile_stale_executions run.env c.execution_stale_timeout_s (retry_options c) db).0
stage_body c run Stage.retry db = (retry_failed_training_jobs run.env (failed_options c) db).0
stage_body c run Stage.promote db = (promote_blocked_training_jobs run.env db).0
stage_body c run Stage.workers db =
    (mark_stale_workers_offline run.env.now c.worker_offline_timeout_s db).0
stage_body c run Stage.reindex db =
    (dispatch_periodic_reindexes run.env.now run.correlations c.dataset_reindex_interval_s db).0

-- A stage in its `try`: what it throws is logged, and the next stage runs.
unfoldable pub run_stage : Config → Run → Stage → Database → Database
unfolding stage_body
run_stage c run s db = if run.throws then db else stage_body c run s db

unfoldable pub run_list : Config → (Stage → Run) → List Stage → Database → Database
unfolding run_stage
run_list c runs [] db = db
run_list c runs (s ∷ more) db = run_list c runs more (run_stage c (runs s) s db)

-- `runStages`.
unfoldable pub run_stages : Config → (Stage → Run) → Database → Database
unfolding run_list
run_stages c runs db = run_list c runs stages db

-- `tick`, run to its end: `locked` is what `pg_try_advisory_lock` answers.
unfoldable pub tick : Config → (Stage → Run) → (is_running locked : Bool) → Database → Database
unfolding run_stages
tick c runs is_running locked db =
    if is_running then db else if locked then run_stages c runs db else db
