-- ===== src/Scheduler/Promote/Outcome.antt =====
-- What promotion does to a BLOCKED job (apps/scheduler/src/promote.ts).
use ikg_studio_model_trainin.Common.{
  ℕ, ◌≡◌, ◌≢◌, refl, ap, ◌∙◌, ◌⊎◌, inl, inr, true, false, [], ◌∷◌, ◌++◌, some, any, all, count,
  take_first, ◌==◌, arith, Bool-cases, take_first-update_hit, count-ne-zero,
}
use ikg_studio_model_trainin.Database.{TrainingJobStatus, TrainingJob, Database, insert_audit}
use ikg_studio_model_trainin.Scheduler.Retry.{NewIds, dispatch_of}
use ikg_studio_model_trainin.Scheduler.Retry.Fresh.{
  first_execution, dispatched_fresh, dispatch_fresh,
}
use ikg_studio_model_trainin.Scheduler.Promote.{
  Promotion, dependency_statuses, is_dead, is_completed, is_blocked_job, dependency_failed,
  unblocked, update_blocked, fail_blocked, after_dispatch, queue_blocked, promote_locked,
  promote_job, failed_audit, unblocked_audit,
}

module _ (now : ℕ) (ids : NewIds) (k : ℕ) (db : Database) (row : TrainingJob)
    (found : take_first (λ j. j.id == k) db.training_jobs ≡ some row)
    (blocked : is_blocked_job k row ≡ true) where
  -- The row has failed with its dependency; there is no new execution and no event.
  pub record IsFailed : Type 0 where
    pub after : Database
    pub result : promote_job now ids k db ≡ some (after, Promotion.failed)
    pub job : take_first (λ j. j.id == k) after.training_jobs ≡ some (dependency_failed now row)
    pub status : (dependency_failed now row).status ≡ TrainingJobStatus.failed
    pub executions : after.job_executions ≡ db.job_executions
    pub events : after.outbox_events ≡ db.outbox_events

  -- The row is QUEUED, and its next attempt has one execution and one event.
  pub record IsPromoted : Type 0 where
    pub after : Database
    pub result : promote_job now ids k db ≡ some (after, Promotion.promoted)
    pub job : take_first (λ j. j.id == k) after.training_jobs ≡ some (unblocked now row)
    pub status : (unblocked now row).status ≡ TrainingJobStatus.queued
    pub executions :
        after.job_executions
        ≡ db.job_executions
          ++ first_execution now ids k ids.correlation_id db (unblocked now row) ∷ []
    pub events :
        after.outbox_events
        ≡ db.outbox_events
          ++ dispatch_of (first_execution now ids k ids.correlation_id db (unblocked now row)) now
            ∷ []

  there : count (is_blocked_job k) db.training_jobs ≢ 0
  there = count-ne-zero (is_blocked_job k) (λ j. j.id == k) (λ j. j) db.training_jobs found blocked

  there_test : (count (is_blocked_job k) db.training_jobs == 0) ≡ false
  there_test = ground (arith, there)

  changed :
      (f : TrainingJob → TrainingJob)
      → ((j : TrainingJob) → (f j).id ≡ j.id)
      → take_first (λ j. j.id == k) (update_blocked k f db).training_jobs ≡ some (f row)
  unfolding update_blocked
  changed f same =
      take_first-update_hit (is_blocked_job k) (λ j. j.id == k) f
        (λ j _. ap (λ (n : ℕ). n == k) (same j)) db.training_jobs found blocked

  promote_found : promote_job now ids k db ≡ promote_locked now ids k db (some row)
  unfolding promote_job
  promote_found = ap (promote_locked now ids k db) found

  fails : any is_dead (dependency_statuses k db) ≡ true → IsFailed
  unfolding promote_job fail_blocked update_blocked dependency_failed
  fails dead = record {
    after =
        insert_audit (failed_audit k ids.correlation_id)
          (update_blocked k (dependency_failed now) db);
    result = promote_found ∙ rw dead (rw there_test refl);
    job = changed (dependency_failed now) (λ j. refl);
    status = refl;
    executions = refl;
    events = refl;
  }

  promotes :
      any is_dead (dependency_statuses k db) ≡ false
      → all is_completed (dependency_statuses k db) ≡ true
      → IsPromoted
  unfolding promote_job queue_blocked update_blocked unblocked
  promotes alive done =
      let mid = update_blocked k (unblocked now) db in
      let row' = changed (unblocked now) (λ j. refl) in
      record {
        after =
            insert_audit (unblocked_audit k ids.correlation_id)
              (dispatched_fresh now ids k ids.correlation_id mid (unblocked now row) row');
        result =
            promote_found
            ∙ rw alive (
                rw done (
                  rw there_test (
                    ap (after_dispatch k ids)
                      (dispatch_fresh now ids k ids.correlation_id mid (unblocked now row) row'))));
        job = row';
        status = refl;
        executions = refl;
        events = refl;
      }

  waits :
      any is_dead (dependency_statuses k db) ≡ false
      → all is_completed (dependency_statuses k db) ≡ false
      → promote_job now ids k db ≡ some (db, Promotion.idle)
  unfolding promote_job
  waits alive pending = promote_found ∙ rw alive (rw pending refl)

  -- A BLOCKED job fails if one of its dependencies is FAILED, CANCELLED or STOPPED, is promoted if
  -- all of them are COMPLETED (or there are none), and is left alone otherwise. The transaction
  -- never throws.
  pub promote_job-outcome :
      ((any is_dead (dependency_statuses k db) ≡ true) × IsFailed)
      ⊎ ((all is_completed (dependency_statuses k db) ≡ true) × IsPromoted)
      ⊎ ((any is_dead (dependency_statuses k db) ≡ false)
          × (all is_completed (dependency_statuses k db) ≡ false)
          × (promote_job now ids k db ≡ some (db, Promotion.idle)))
  promote_job-outcome = elim (Bool-cases (any is_dead (dependency_statuses k db))) [
    | inl dead ↦ inl (dead, fails dead)
    | inr alive ↦ elim (Bool-cases (all is_completed (dependency_statuses k db))) [
      | inl done ↦ inr (inl (done, promotes alive done))
      | inr pending ↦ inr (inr (alive, pending, waits alive pending))
    ]
  ]
