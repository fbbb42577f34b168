-- ===== src/Scheduler/Retry/Fresh.antt =====
-- The first dispatch of an unblocked job (apps/scheduler/src/retry.ts,
-- `dispatchFreshTrainingJob`).
use ikg_studio_model_trainin.Common.{
  ℕ, ◌+◌, ◌≡◌, refl, ap, ◌∙◌, false, [], ◌∷◌, ◌++◌, none, some, any, take_first, ◌==◌, arith,
}
use ikg_studio_model_trainin.Database.{TrainingJob, JobExecution, Database}
use ikg_studio_model_trainin.Execution.{
  max_attempt, same_attempt, beyond_max, AttemptsUnique, AttemptsUnique-snoc,
}
use ikg_studio_model_trainin.Scheduler.Retry.{
  NewIds, new_execution, dispatch_of, insert_event, enqueue_fresh, fresh_after,
  dispatch_fresh_training_job,
}
use ikg_studio_model_trainin.Scheduler.Retry.Dispatch.{insert_new}

-- The execution that the dispatch inserts for the job's row.
abbrev pub first_execution : ℕ → NewIds → ℕ → ℕ → Database → TrainingJob → JobExecution
first_execution now ids k correlation db job =
    new_execution now ids k (max_attempt k db.job_executions + 1) correlation
      job.configuration_snapshot job.configuration_hash

module _ (now : ℕ) (ids : NewIds) (k correlation : ℕ) (db : Database) (job : TrainingJob)
    (found : take_first (λ j. j.id == k) db.training_jobs ≡ some job) where
  abbrev pub dispatched_fresh : Database
  dispatched_fresh =
      let e = first_execution now ids k correlation db job in
      insert_event (dispatch_of e now) (record db { job_executions = db.job_executions ++ e ∷ [] })

  new_attempt :
      any (same_attempt (first_execution now ids k correlation db job)) db.job_executions ≡ false
  unfolding new_execution
  new_attempt =
      beyond_max (first_execution now ids k correlation db job) db.job_executions refl (omega arith)

  -- A job that exists is always dispatched, with an attempt that is new to the table.
  pub dispatch_fresh :
      dispatch_fresh_training_job now ids k correlation db
      ≡ some (dispatched_fresh, (first_execution now ids k correlation db job).id)
  unfolding dispatch_fresh_training_job
  dispatch_fresh =
      let e = first_execution now ids k correlation db job in
      ap (fresh_after now ids k correlation db) found
      ∙ ap (enqueue_fresh now e) (insert_new e db new_attempt)

  pub fresh_unique :
      AttemptsUnique db.job_executions → AttemptsUnique dispatched_fresh.job_executions
  fresh_unique u =
      AttemptsUnique-snoc (first_execution now ids k correlation db job) db.job_executions u
        new_attempt

pub dispatch_fresh_missing :
    (now : ℕ) (ids : NewIds) (k correlation : ℕ) (db : Database)
    → take_first (λ j. j.id == k) db.training_jobs ≡ none
    → dispatch_fresh_training_job now ids k correlation db ≡ none
unfolding dispatch_fresh_training_job
dispatch_fresh_missing now ids k correlation db missing =
    ap (fresh_after now ids k correlation db) missing
