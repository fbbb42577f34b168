-- ===== src/Scheduler/Reconcile/Training/Ended.antt =====
-- The recovery of a training execution leaves jobs that have ended alone
-- (apps/scheduler/src/reconcile.ts).
use ikg_studio_model_trainin.Common.{
  ℕ, ◌≡◌, refl, ap, sym, subst, ◌∙◌, inl, inr, Bool, true, false, any, count, update, take_first,
  ltb, ◌==◌, arith, Bool-cases, take_first-update_kept,
}
use ikg_studio_model_trainin.Database.{TrainingJob, JobExecution, Database}
use ikg_studio_model_trainin.Execution.{of_training, AttemptsUnique}
use ikg_studio_model_trainin.Scheduler.Retry.{NewIds, dispatch_training_retry}
use ikg_studio_model_trainin.Scheduler.Retry.Stage.{requeued}
use ikg_studio_model_trainin.Scheduler.Retry.Dispatch.{dispatch-Dispatched, Dispatched-unique}
use ikg_studio_model_trainin.Scheduler.Retry.Failed.{dispatch_missing}
use ikg_studio_model_trainin.Scheduler.Reconcile.Kept.{Kept, Kept-refl, KeptBy}
use ikg_studio_model_trainin.Scheduler.Reconcile.Training.{
  RetryOptions, is_terminal, is_stopping_job, is_live_job, stopped_job, exhausted_job, stop_job,
  exhaust_job, requeue_job, lost_retry_options, counted, row_is_stopping, recover_training,
}

-- An UPDATE that passes over jobs that have ended.
module _ (p : TrainingJob → Bool) (f : TrainingJob → TrainingJob) where
  update-Kept :
      ((y : TrainingJob) → (f y).id ≡ y.id)
      → ((y : TrainingJob) → is_terminal y.status ≡ true → p y ≡ false)
      → (db after : Database)
      → (AttemptsUnique db.job_executions → AttemptsUnique after.job_executions)
      → after.training_jobs ≡ update p f db.training_jobs
      → Kept db after
  update-Kept same passes db after unique jobs = record {
    unique = unique;
    ended = λ k j found over.
        ap (take_first (λ (x : TrainingJob). x.id == k)) jobs
        ∙ take_first-update_kept p (λ x. x.id == k) f (λ y _. ap (λ (n : ℕ). n == k) (same y))
            db.training_jobs found (passes j over);
  }

module _ (now : ℕ) (ids : NewIds) (stale : ℕ) (retry : RetryOptions) (c : JobExecution)
    (db : Database) where
  stop-Kept : Kept db (stop_job now c db)
  unfolding stop_job is_stopping_job stopped_job
  stop-Kept =
      update-Kept (is_stopping_job c.job_id) (stopped_job now) (λ y. refl) (λ y over. ground arith)
        db (stop_job now c db) (λ u. u) refl

  exhaust-Kept : Kept db (exhaust_job now c db)
  unfolding exhaust_job is_live_job exhausted_job
  exhaust-Kept =
      update-Kept (is_live_job c.job_id) (exhausted_job now) (λ y. refl) (λ y over. ground arith) db
        (exhaust_job now c db) (λ u. u) refl

  dispatch-Kept : KeptBy db (
      counted
        (dispatch_training_retry now ids (lost_retry_options stale retry c) (requeue_job now c db)))
  unfolding requeue_job is_live_job requeued counted lost_retry_options
  dispatch-Kept =
      let opts = lost_retry_options stale retry c in
      let start = requeue_job now c db in
      elim (Bool-cases (any (of_training c.job_id) db.job_executions)) [
        | inl has ↦
            let (after, r, result, effect) = dispatch-Dispatched now ids opts start has in
            subst (λ o. KeptBy db (counted o)) (sym result)
              (update-Kept (is_live_job c.job_id) (requeued now) (λ y. refl)
                (λ y over. ground arith) db after (Dispatched-unique effect) effect.jobs)
        | inr lacks ↦
            subst (λ o. KeptBy db (counted o)) (sym (dispatch_missing now ids opts start lacks)) tt
      ]

  pub recover_training-Kept : KeptBy db (recover_training now ids stale retry c db)
  unfolding recover_training
  recover_training-Kept =
      elim (Bool-cases (row_is_stopping (take_first (λ j. j.id == c.job_id) db.training_jobs))) [
        | inl stopping ↦ rw stopping stop-Kept
        | inr going ↦ elim (Bool-cases (ltb c.attempt_number retry.max_training_attempts)) [
          | inr spent ↦ rw going (rw spent exhaust-Kept)
          | inl left ↦ elim (Bool-cases (count (is_live_job c.job_id) db.training_jobs == 0)) [
            | inl none_live ↦ rw going (rw left (rw none_live (Kept-refl db)))
            | inr live ↦ rw going (rw left (rw live dispatch-Kept))
          ]
        ]
      ]
