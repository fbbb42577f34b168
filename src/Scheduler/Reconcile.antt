-- ===== src/Scheduler/Reconcile.antt =====
-- The stage that recovers lost executions (apps/scheduler/src/reconcile.ts,
-- `reconcileStaleExecutions`).
pub mod Benchmark
pub mod Inference
pub mod Records
pub mod Training
pub mod Kept
pub mod Untouched
pub mod Laws
use ikg_studio_model_trainin.Common.{
  ℕ, ◌+◌, Bool, true, false, ◌&&◌, List, [], ◌∷◌, Option, none, some, select, count, update, ltb,
  ◌==◌, if◌then◌else◌,
}
use ikg_studio_model_trainin.Json.{number, text, field, end}
use ikg_studio_model_trainin.Database.{
  JobType, job_type_name, JobExecution, JobExecutionStatus, AuditResult, Database, insert_audit,
}
use ikg_studio_model_trainin.Scheduler.Entries.{scheduler_entry, lost_code}
use ikg_studio_model_trainin.Scheduler.Retry.{NewIds}
use ikg_studio_model_trainin.Scheduler.Retry.Stage.{Env}
use Benchmark.{finalize_benchmark_on_lost}
use Inference.{finalize_inference_on_lost}
use Records.{fail_conversion, fail_scan, fail_training_dataset, fail_ingest}
use Training.{RetryOptions, Recovery, recover_training}

pub record ReconcileResult : Type 0 where
  pub lost : ℕ
  pub retried : ℕ
  pub failed : ℕ

-- `ACTIVE_STATUSES`.
abbrev pub is_active : JobExecutionStatus → Bool
is_active JobExecutionStatus.claimed = true
is_active JobExecutionStatus.preparing = true
is_active JobExecutionStatus.running = true
is_active _ = false

-- `coalesce(heartbeat_at, started_at, created_at)`.
unfoldable pub last_seen : JobExecution → ℕ
last_seen e = elim e.heartbeat_at [
  | some t ↦ t
  | none ↦ elim e.started_at [ some t ↦ t | none ↦ e.created_at ]
]

unfoldable pub is_stale : ℕ → ℕ → JobExecution → Bool
unfolding last_seen
is_stale now stale e = is_active e.status && ltb (last_seen e + stale) now

unfoldable pub is_active_execution : ℕ → JobExecution → Bool
is_active_execution k e = e.id == k && is_active e.status

unfoldable pub lost_execution : ℕ → JobExecution → JobExecution
lost_execution now e = record e {
  status = JobExecutionStatus.lost;
  finished_at = some now;
  error_code = lost_code;
  error_message = some "Execution lost: no heartbeat within timeout";
}

-- The guarded LOST transition and its audit entry.
unfoldable pub mark_lost : ℕ → JobExecution → Database → Database
unfolding is_active_execution lost_execution scheduler_entry
mark_lost now c db =
    insert_audit
      (scheduler_entry "JOB_EXECUTION_LOST" "JOB_EXECUTION" c.id AuditResult.failure
        c.correlation_id lost_code
        (field "job_type" (text (job_type_name c.job_type)) (field "job_id" (number c.job_id) end)))
      (record db {
        job_executions = update (is_active_execution c.id) (lost_execution now) db.job_executions;
      })

failed_if : Database × Bool → Option (Database × Recovery)
failed_if (db, true) = some (db, Recovery.failed)
failed_if (db, false) = some (db, Recovery.none_counted)

failed_maybe : Option (Database × Bool) → Option (Database × Recovery)
unfolding failed_if
failed_maybe none = none
failed_maybe (some r) = failed_if r

-- The recovery that belongs to the lost execution's job type; none is a throw.
unfoldable pub recover :
    ℕ → NewIds → ℕ → RetryOptions → JobExecution → JobType → Database → Option (Database × Recovery)
unfolding failed_if failed_maybe finalize_benchmark_on_lost finalize_inference_on_lost
    fail_conversion fail_scan fail_training_dataset fail_ingest recover_training
recover now ids stale retry c JobType.benchmark_evaluation db =
    failed_maybe (finalize_benchmark_on_lost now c.job_id c.correlation_id db)
recover now ids stale retry c JobType.inference db =
    failed_if (finalize_inference_on_lost now c.job_id c.correlation_id db)
recover now ids stale retry c JobType.model_conversion db =
    failed_if (fail_conversion now c.job_id c.correlation_id db)
recover now ids stale retry c JobType.dataset_scan db =
    failed_if (fail_scan now c.job_id c.correlation_id db)
recover now ids stale retry c JobType.dataset_build db =
    failed_if (fail_training_dataset now c.job_id c.correlation_id JobType.dataset_build db)
recover now ids stale retry c JobType.training_dataset_scan db =
    failed_if (fail_training_dataset now c.job_id c.correlation_id JobType.training_dataset_scan db)
recover now ids stale retry c JobType.model_ingest db =
    failed_if (fail_ingest now c.job_id c.correlation_id db)
recover now ids stale retry c JobType.training db = recover_training now ids stale retry c db
recover now ids stale retry c _ db = some (db, Recovery.none_counted)

unfoldable pub tally : Recovery → ReconcileResult → ReconcileResult
tally Recovery.none_counted r = r
tally Recovery.retried r = record r { retried = r.retried + 1 }
tally Recovery.failed r = record r { failed = r.failed + 1 }

-- The counters are raised inside the transaction: `lost` as soon as the mark is made.
settle :
    Bool → Option (Database × Recovery) → Database × ReconcileResult → Database × ReconcileResult
unfolding tally
settle aborted none (db, r) = (db, record r { lost = r.lost + 1 })
settle true (some (after, p)) (db, r) = (db, tally p (record r { lost = r.lost + 1 }))
settle false (some (after, p)) (db, r) = (after, tally p (record r { lost = r.lost + 1 }))

-- The transaction for one candidate.
unfoldable pub reconcile_execution :
    Env → ℕ → RetryOptions → JobExecution → Database × ReconcileResult → Database × ReconcileResult
unfolding is_active_execution settle recover mark_lost
reconcile_execution env stale retry c s =
    if count (is_active_execution c.id) s.0.job_executions == 0
    then s
    else settle (env.aborts c.id)
        (recover env.now (env.ids c.id) stale retry c c.job_type (mark_lost env.now c s.0)) s

reconcile_candidates :
    Env
    → ℕ
    → RetryOptions
    → List JobExecution
    → Database × ReconcileResult
    → Database × ReconcileResult
unfolding reconcile_execution
reconcile_candidates env stale retry [] s = s
reconcile_candidates env stale retry (c ∷ more) s =
    reconcile_candidates env stale retry more (reconcile_execution env stale retry c s)

-- `reconcileStaleExecutions`.
unfoldable pub reconcile_stale_executions :
    Env → ℕ → RetryOptions → Database → Database × ReconcileResult
unfolding reconcile_candidates is_stale
reconcile_stale_executions env stale retry db =
    reconcile_candidates env stale retry (select (is_stale env.now stale) db.job_executions)
      (db, record { lost = 0; retried = 0; failed = 0 })
