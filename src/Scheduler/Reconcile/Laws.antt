-- ===== src/Scheduler/Reconcile/Laws.antt =====
-- What the whole reconcile stage preserves (apps/scheduler/src/reconcile.ts,
-- `reconcileStaleExecutions`).
use ikg_studio_model_trainin.Common.{
  take_first, ℕ, ◌≡◌, refl, inl, inr, Bool, true, false, List, [], ◌∷◌, Option, none, some, count,
  select, ◌==◌, Bool-cases,
}
use ikg_studio_model_trainin.Database.{TrainingJob, JobType, JobExecution, Database}
use ikg_studio_model_trainin.Execution.{AttemptsUnique-update}
use ikg_studio_model_trainin.Scheduler.Retry.{NewIds}
use ikg_studio_model_trainin.Scheduler.Retry.Stage.{Env}
use ikg_studio_model_trainin.Scheduler.Reconcile.Benchmark.{finalize_benchmark_on_lost}
use ikg_studio_model_trainin.Scheduler.Reconcile.Inference.{finalize_inference_on_lost}
use ikg_studio_model_trainin.Scheduler.Reconcile.Records.{
  fail_conversion, fail_scan, fail_training_dataset, fail_ingest,
}
use ikg_studio_model_trainin.Scheduler.Reconcile.Training.{is_terminal, RetryOptions, Recovery}
use ikg_studio_model_trainin.Scheduler.Reconcile.Training.Ended.{recover_training-Kept}
use ikg_studio_model_trainin.Scheduler.Reconcile.Kept.{
  Kept, Kept-refl, Kept-trans, Same-Kept, KeptBy,
}
use ikg_studio_model_trainin.Scheduler.Reconcile.Untouched.{
  conversion_same, scan_same, training_dataset_same, ingest_same, inference_same, benchmark_same,
}
use ikg_studio_model_trainin.Scheduler.Reconcile.{
  ReconcileResult, is_active_execution, lost_execution, mark_lost, failed_if, failed_maybe, recover,
  settle, reconcile_execution, reconcile_candidates, is_stale, reconcile_stale_executions,
}

failed_if-Kept : (db : Database) (r : Database × Bool) → Kept db r.0 → KeptBy db (failed_if r)
unfolding failed_if
failed_if-Kept db (after, true) k = k
failed_if-Kept db (after, false) k = k

failed_maybe-Kept :
    (db : Database) (o : Option (Database × Bool)) → KeptBy db o → KeptBy db (failed_maybe o)
unfolding failed_maybe
failed_maybe-Kept db none k = tt
failed_maybe-Kept db (some r) k = failed_if-Kept db r k

Option-Kept :
    (db : Database) (o : Option (Database × Bool))
    → ((after : Database) (b : Bool) → o ≡ some (after, b) → Kept db after)
    → KeptBy db o
Option-Kept db none h = tt
Option-Kept db (some (after, b)) h = h after b refl

module _ (now : ℕ) (ids : NewIds) (stale : ℕ) (retry : RetryOptions) (c : JobExecution) where
  recover-Kept : (t : JobType) (db : Database) → KeptBy db (recover now ids stale retry c t db)
  unfolding recover
  recover-Kept JobType.benchmark_evaluation db =
      failed_maybe-Kept db (finalize_benchmark_on_lost now c.job_id c.correlation_id db) (
        Option-Kept db (finalize_benchmark_on_lost now c.job_id c.correlation_id db)
          (λ after b e. Same-Kept (benchmark_same now c.job_id c.correlation_id db after b e)))
  recover-Kept JobType.inference db =
      failed_if-Kept db (finalize_inference_on_lost now c.job_id c.correlation_id db)
        (Same-Kept (inference_same now c.job_id c.correlation_id db))
  recover-Kept JobType.model_conversion db =
      failed_if-Kept db (fail_conversion now c.job_id c.correlation_id db)
        (Same-Kept (conversion_same now c.job_id c.correlation_id db))
  recover-Kept JobType.dataset_scan db =
      failed_if-Kept db (fail_scan now c.job_id c.correlation_id db)
        (Same-Kept (scan_same now c.job_id c.correlation_id db))
  recover-Kept JobType.dataset_build db =
      failed_if-Kept db
        (fail_training_dataset now c.job_id c.correlation_id JobType.dataset_build db)
        (Same-Kept (training_dataset_same now c.job_id c.correlation_id db JobType.dataset_build))
  recover-Kept JobType.training_dataset_scan db =
      failed_if-Kept db
        (fail_training_dataset now c.job_id c.correlation_id JobType.training_dataset_scan db)
        (Same-Kept
          (training_dataset_same now c.job_id c.correlation_id db JobType.training_dataset_scan))
  recover-Kept JobType.model_ingest db =
      failed_if-Kept db (fail_ingest now c.job_id c.correlation_id db)
        (Same-Kept (ingest_same now c.job_id c.correlation_id db))
  recover-Kept JobType.training db = recover_training-Kept now ids stale retry c db
  recover-Kept JobType.model_delete db = Kept-refl db
  recover-Kept JobType.cleanup db = Kept-refl db
  recover-Kept JobType.maintenance db = Kept-refl db

mark_lost-Kept : (now : ℕ) (c : JobExecution) (db : Database) → Kept db (mark_lost now c db)
unfolding mark_lost lost_execution
mark_lost-Kept now c db = record {
  unique =
      AttemptsUnique-update (is_active_execution c.id) (lost_execution now)
        (λ e. (refl, refl, refl)) db.job_executions;
  ended = λ k j found over. found;
}

settle-Kept :
    (start mid : Database) (aborted : Bool) (o : Option (Database × Recovery)) (r : ReconcileResult)
    → Kept start mid
    → KeptBy mid o
    → Kept start (settle aborted o (start, r)).0
unfolding settle
settle-Kept start mid aborted none r first k = Kept-refl start
settle-Kept start mid true (some (after, p)) r first k = Kept-refl start
settle-Kept start mid false (some (after, p)) r first k = Kept-trans first k

module _ (env : Env) (stale : ℕ) (retry : RetryOptions) where
  execution-Kept :
      (c : JobExecution) (s : Database × ReconcileResult)
      → Kept s.0 (reconcile_execution env stale retry c s).0
  unfolding reconcile_execution
  execution-Kept c s =
      let mid = mark_lost env.now c s.0 in
      elim (Bool-cases (count (is_active_execution c.id) s.0.job_executions == 0)) [
        | inl gone ↦ rw gone (Kept-refl s.0)
        | inr there ↦ rw there (
            settle-Kept s.0 mid (env.aborts c.id)
              (recover env.now (env.ids c.id) stale retry c c.job_type mid) s.1
              (mark_lost-Kept env.now c s.0)
              (recover-Kept env.now (env.ids c.id) stale retry c c.job_type mid))
      ]

  candidates-Kept :
      (cs : List JobExecution) (s : Database × ReconcileResult)
      → Kept s.0 (reconcile_candidates env stale retry cs s).0
  unfolding reconcile_candidates
  candidates-Kept [] s = Kept-refl s.0
  candidates-Kept (c ∷ more) s =
      Kept-trans (execution-Kept c s)
        (candidates-Kept more (reconcile_execution env stale retry c s))

  pub reconcile-Kept : (db : Database) → Kept db (reconcile_stale_executions env stale retry db).0
  unfolding reconcile_stale_executions
  reconcile-Kept db =
      candidates-Kept (select (is_stale env.now stale) db.job_executions)
        (db, record { lost = 0; retried = 0; failed = 0 })

  -- Whatever executions were lost and whichever transactions abort, a training job that had ended
  -- (COMPLETED, FAILED, CANCELLED or STOPPED) has the same row afterwards.
  pub reconcile_stage_kept :
      (db : Database) (k : ℕ) (j : TrainingJob)
      → take_first (λ x. x.id == k) db.training_jobs ≡ some j
      → is_terminal j.status ≡ true
      → take_first (λ x. x.id == k) (reconcile_stale_executions env stale retry db).0.training_jobs
        ≡ some j
  reconcile_stage_kept db k j found over = (reconcile-Kept db).ended k j found over
