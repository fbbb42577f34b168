-- ===== src/Scheduler/Reconcile/Training/Outcome.antt =====
-- What becomes of a training job whose execution was lost (apps/scheduler/src/reconcile.ts).
use ikg_studio_model_trainin.Common.{
  ℕ, ◌≤◌, ◌<◌, ◌≡◌, refl, ap, ◌∙◌, inl, inr, true, false, Option, some, any, count, take_first, ltb,
  ◌==◌, arith, Bool-cases, take_first-holds, take_first-update_hit, take_first-update_kept,
  count-ne-zero,
}
use ikg_studio_model_trainin.Database.{TrainingJobStatus, TrainingJob, JobExecution, Database}
use ikg_studio_model_trainin.Execution.{of_training}
use ikg_studio_model_trainin.Scheduler.Retry.{NewIds, RetryDispatched}
use ikg_studio_model_trainin.Scheduler.Retry.Stage.{requeued}
use ikg_studio_model_trainin.Scheduler.Retry.Dispatch.{Dispatched, dispatch-Dispatched}
use ikg_studio_model_trainin.Scheduler.Reconcile.Training.{
  RetryOptions, Recovery, is_terminal, is_stopping, is_stopping_job, is_live_job, stopped_job,
  exhausted_job, stop_job, exhaust_job, requeue_job, lost_retry_options, counted, row_is_stopping,
  recover_training,
}

abbrev pub job_of : JobExecution → Database → Option TrainingJob
job_of c db = take_first (λ j. j.id == c.job_id) db.training_jobs

module _ (now : ℕ) (ids : NewIds) (stale : ℕ) (retry : RetryOptions) (c : JobExecution)
    (db : Database) (j : TrainingJob) (found : job_of c db ≡ some j) where
  -- The recovery counts as `p` and leaves the job's row as `row`, in the status `target`.
  pub record Recovers (p : Recovery) (row : TrainingJob) (target : TrainingJobStatus) : Type 0 where
    pub after : Database
    pub result : recover_training now ids stale retry c db ≡ some (after, p)
    pub job : job_of c after ≡ some row
    pub status : row.status ≡ target
    pub executions : after.job_executions ≡ db.job_executions

  -- The job is requeued, and the attempt after its newest one is dispatched.
  pub record Requeues : Type 0 where
    pub after : Database
    pub dispatch : RetryDispatched
    pub result : recover_training now ids stale retry c db ≡ some (after, Recovery.retried)
    pub job : job_of c after ≡ some (requeued now j)
    pub status : (requeued now j).status ≡ TrainingJobStatus.queued
    pub dispatched :
        Dispatched now ids (lost_retry_options stale retry c) (requeue_job now c db) after dispatch

  own : (j.id == c.job_id) ≡ true
  own = take_first-holds (λ x. x.id == c.job_id) db.training_jobs found

  row_test : row_is_stopping (job_of c db) ≡ is_stopping j.status
  row_test = ap row_is_stopping found

  -- A job in STOPPING ends STOPPED, whatever attempts are left.
  pub recover_stopping :
      is_stopping j.status ≡ true
      → Recovers Recovery.failed (stopped_job now j) TrainingJobStatus.stopped
  unfolding recover_training is_stopping_job stopped_job
  recover_stopping h = record {
    after = stop_job now c db;
    result = rw (row_test ∙ h) refl;
    job =
        take_first-update_hit (is_stopping_job c.job_id) (λ x. x.id == c.job_id) (stopped_job now)
          (λ y _. refl) db.training_jobs found (rw own h);
    status = refl;
    executions = refl;
  }

  module _ (going : is_stopping j.status ≡ false) where
    -- With the attempts used up, a job that has not ended fails.
    pub recover_exhausted :
        retry.max_training_attempts ≤ c.attempt_number
        → is_terminal j.status ≡ false
        → Recovers Recovery.failed (exhausted_job now j) TrainingJobStatus.failed
    unfolding recover_training is_live_job exhausted_job
    recover_exhausted spent live =
        let test : ltb c.attempt_number retry.max_training_attempts ≡ false = ground arith in
        record {
          after = exhaust_job now c db;
          result = rw (row_test ∙ going) (rw test refl);
          job =
              take_first-update_hit (is_live_job c.job_id) (λ x. x.id == c.job_id)
                (exhausted_job now) (λ y _. refl) db.training_jobs found (rw own (rw live refl));
          status = refl;
          executions = refl;
        }

    -- A job that has ended is left as it is.
    pub recover_ended :
        c.attempt_number < retry.max_training_attempts
        → count (is_live_job c.job_id) db.training_jobs ≡ 0
        → recover_training now ids stale retry c db ≡ some (db, Recovery.none_counted)
    unfolding recover_training
    recover_ended left ended =
        let test : ltb c.attempt_number retry.max_training_attempts ≡ true = ground arith in
        rw (row_test ∙ going) (rw test (rw ended refl))

    -- With attempts left, a job that has not ended is requeued.
    pub recover_retried :
        c.attempt_number < retry.max_training_attempts
        → is_terminal j.status ≡ false
        → any (of_training c.job_id) db.job_executions ≡ true
        → Requeues
    unfolding recover_training is_live_job requeued
    recover_retried left live has =
        let test : ltb c.attempt_number retry.max_training_attempts ≡ true = ground arith in
        let passes : is_live_job c.job_id j ≡ true = rw own (rw live refl) in
        let there =
          count-ne-zero (is_live_job c.job_id) (λ x. x.id == c.job_id) (λ x. x) db.training_jobs
            found passes in
        let busy : (count (is_live_job c.job_id) db.training_jobs == 0) ≡ false =
          ground (arith, there) in
        let (after, r, result, effect) =
          dispatch-Dispatched now ids (lost_retry_options stale retry c) (requeue_job now c db)
            has in
        record {
          after = after;
          dispatch = r;
          result = rw (row_test ∙ going) (rw test (rw busy (ap counted result)));
          job =
              ap (take_first (λ (x : TrainingJob). x.id == c.job_id)) effect.jobs
              ∙ take_first-update_hit (is_live_job c.job_id) (λ x. x.id == c.job_id) (requeued now)
                  (λ y _. refl) db.training_jobs found passes;
          status = refl;
          dispatched = effect;
        }

    -- The row of a job that has ended stays as it is, also where the recovery goes on.
    terminal_kept :
        is_terminal j.status ≡ true
        → any (of_training c.job_id) db.job_executions ≡ true
        → (p : Recovery) × (after : Database) × (recover_training now ids stale retry c db
            ≡ some (after, p))
          × (job_of c after ≡ some j)
    unfolding recover_training is_live_job exhausted_job requeued
    terminal_kept ended has =
        let passed : is_live_job c.job_id j ≡ false = rw own (rw ended refl) in
        elim (Bool-cases (ltb c.attempt_number retry.max_training_attempts)) [
          | inr spent ↦ (
            Recovery.failed,
            exhaust_job now c db,
            rw (row_test ∙ going) (rw spent refl),
            take_first-update_kept (is_live_job c.job_id) (λ x. x.id == c.job_id)
                (exhausted_job now) (λ y _. refl) db.training_jobs found passed,
          )
          | inl left ↦ elim (Bool-cases (count (is_live_job c.job_id) db.training_jobs == 0)) [
            | inl none_live ↦ (
              Recovery.none_counted,
              db,
              rw (row_test ∙ going) (rw left (rw none_live refl)),
              found,
            )
            | inr others ↦
                let (after, r, result, effect) =
                  dispatch-Dispatched now ids (lost_retry_options stale retry c)
                    (requeue_job now c db) has in
                (
                  Recovery.retried,
                  after,
                  rw (row_test ∙ going) (rw left (rw others (ap counted result))),
                  ap (take_first (λ (x : TrainingJob). x.id == c.job_id)) effect.jobs
                      ∙ take_first-update_kept (is_live_job c.job_id) (λ x. x.id == c.job_id)
                          (requeued now) (λ y _. refl) db.training_jobs found passed,
                )
          ]
        ]

  -- The four ends of a lost training execution.
  pub data Ending : Type 0 where
    stops :
        is_stopping j.status ≡ true
        → Recovers Recovery.failed (stopped_job now j) TrainingJobStatus.stopped
        → Ending
    gives_up :
        is_stopping j.status ≡ false
        → is_terminal j.status ≡ false
        → retry.max_training_attempts ≤ c.attempt_number
        → Recovers Recovery.failed (exhausted_job now j) TrainingJobStatus.failed
        → Ending
    retries :
        is_stopping j.status ≡ false
        → is_terminal j.status ≡ false
        → c.attempt_number < retry.max_training_attempts
        → Requeues
        → Ending
    ended :
        is_terminal j.status ≡ true
        → (p : Recovery) (after : Database)
        → recover_training now ids stale retry c db ≡ some (after, p)
        → job_of c after ≡ some j
        → Ending

  -- The job of a lost training execution: from STOPPING it ends STOPPED; otherwise, if it has not
  -- ended, it is requeued with a new attempt while the lost attempt's number is below the limit and
  -- FAILED from there on; if it has ended its row is unchanged. The transaction never throws, since
  -- the job has an execution.
  pub recover_training-Ending : any (of_training c.job_id) db.job_executions ≡ true → Ending
  recover_training-Ending has = elim (Bool-cases (is_stopping j.status)) [
    | inl stopping ↦ stops stopping (recover_stopping stopping)
    | inr going ↦ elim (Bool-cases (is_terminal j.status)) [
      | inl over ↦
          let (p, after, result, job) = terminal_kept going over has in
          ended over p after result job
      | inr live ↦ elim (Bool-cases (ltb c.attempt_number retry.max_training_attempts)) [
        | inl left ↦
            retries going live (ground arith) (recover_retried going (ground arith) live has)
        | inr spent ↦
            gives_up going live (ground arith) (recover_exhausted going (ground arith) live)
      ]
    ]
  ]
