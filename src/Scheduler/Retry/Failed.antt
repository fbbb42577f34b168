-- ===== src/Scheduler/Retry/Failed.antt =====
-- The stage that retries transient failures (apps/scheduler/src/retry.ts,
-- `retryFailedTrainingJobs`).
use ikg_studio_model_trainin.Common.{
  ℕ, ◌≤◌, ◌<◌, ◌≡◌, ◌≢◌, refl, ap, sym, subst, ◌∙◌, ◌⊎◌, inl, inr, Bool, true, false, List, [], ◌∷◌,
  Option, none, some, any, count, update, select, take_first, leb, ◌==◌, ==_iff, arith, Bool-cases,
  eq_of_some, take_first-update_kept,
}
use ikg_studio_model_trainin.Database.{TrainingJobStatus, job_status_eq, TrainingJob, Database}
use ikg_studio_model_trainin.Execution.{
  of_training, max_attempt, max_attempt-snoc, latest-missing, AttemptsUnique,
}
use ikg_studio_model_trainin.Scheduler.Retry.{
  NewIds, RetryDispatchOptions, RetryDispatched, next_execution, dispatch_after,
  dispatch_training_retry,
}
use ikg_studio_model_trainin.Scheduler.Retry.Stage.{
  FailedRetryOptions, is_candidate, is_failed_job, requeued, requeue_failed, failed_retry_options,
  counted, retry_failed_job, Env, settle, retry_candidates, retry_failed_training_jobs,
}
use ikg_studio_model_trainin.Scheduler.Retry.Dispatch.{
  Dispatched, dispatch-Dispatched, Dispatched-unique,
}

module _ (now : ℕ) (ids : NewIds) (opts : FailedRetryOptions) (job : TrainingJob)
    (db : Database) where
  abbrev chosen : RetryDispatchOptions
  chosen = failed_retry_options ids.correlation_id opts job db

  -- The transaction did nothing: the attempts are used up, or the job is no longer FAILED.
  pub record Skipped : Type 0 where
    pub result : retry_failed_job now ids opts job db ≡ some (db, false)
    pub reason :
        (opts.max_training_attempts ≤ max_attempt job.id db.job_executions)
        ⊎ (count (is_failed_job job.id) db.training_jobs ≡ 0)

  -- The transaction requeued the job and dispatched its next attempt.
  pub record Retried : Type 0 where
    pub after : Database
    pub dispatch : RetryDispatched
    pub result : retry_failed_job now ids opts job db ≡ some (after, true)
    pub attempts_left : max_attempt job.id db.job_executions < opts.max_training_attempts
    pub was_failed : count (is_failed_job job.id) db.training_jobs ≢ 0
    pub jobs : after.training_jobs ≡ update (is_failed_job job.id) (requeued now) db.training_jobs
    pub queued : (j : TrainingJob) → (requeued now j).status ≡ TrainingJobStatus.queued
    pub dispatched : Dispatched now ids chosen (requeue_failed now job.id db) after dispatch

  -- For a job that has an execution the transaction never throws: either nothing changes, because
  -- its attempts are used up or it is no longer FAILED, or its FAILED row is requeued and the next
  -- attempt dispatched.
  pub retry_failed_job-outcome :
      any (of_training job.id) db.job_executions ≡ true → Skipped ⊎ Retried
  unfolding retry_failed_job requeued
  retry_failed_job-outcome h =
      let used = max_attempt job.id db.job_executions in
      elim (Bool-cases (leb opts.max_training_attempts used)) [
        | inl spent ↦ inl (record { result = rw spent refl; reason = inl (ground arith) })
        | inr left ↦ elim (Bool-cases (count (is_failed_job job.id) db.training_jobs == 0)) [
          | inl gone ↦
              inl (record { result = rw left (rw gone refl); reason = inr ((==_iff _ _).0 gone) })
          | inr there ↦
              let (after, r, result, effect) =
                dispatch-Dispatched now ids chosen (requeue_failed now job.id db) h in
              inr (record {
                after = after;
                dispatch = r;
                result = rw left (rw there (ap counted result));
                attempts_left = ground arith;
                was_failed = ground arith;
                jobs = effect.jobs;
                queued = λ j. refl;
                dispatched = effect;
              })
        ]
      ]

-- What the stage preserves between two databases: the unique constraint, the attempt limit of
-- every job, and the row of every job that is not FAILED.
pub record Preserved (most : ℕ) (before after : Database) : Type 0 where
  pub unique : AttemptsUnique before.job_executions → AttemptsUnique after.job_executions
  pub bounded :
      (k : ℕ)
      → max_attempt k before.job_executions ≤ most
      → max_attempt k after.job_executions ≤ most
  pub kept :
      (k : ℕ) (j : TrainingJob)
      → take_first (λ x. x.id == k) before.training_jobs ≡ some j
      → job_status_eq j.status TrainingJobStatus.failed ≡ false
      → take_first (λ x. x.id == k) after.training_jobs ≡ some j

unchanged : (most : ℕ) (db : Database) → Preserved most db db
unchanged most db = record { unique = λ u. u; bounded = λ k b. b; kept = λ k j found other. found }

chained :
    {most : ℕ} {a b c : Database} → Preserved most a b → Preserved most b c → Preserved most a c
chained p q = record {
  unique = λ u. q.unique (p.unique u);
  bounded = λ k h. q.bounded k (p.bounded k h);
  kept = λ k j found other. q.kept k j (p.kept k j found other) other;
}

pub dispatch_missing :
    (now : ℕ) (ids : NewIds) (opts : RetryDispatchOptions) (db : Database)
    → any (of_training opts.job_id) db.job_executions ≡ false
    → dispatch_training_retry now ids opts db ≡ none
unfolding dispatch_training_retry
dispatch_missing now ids opts db h =
    ap (dispatch_after now ids opts db) (latest-missing opts.job_id db.job_executions h)

module _ (now : ℕ) (ids : NewIds) (opts : FailedRetryOptions) (job : TrainingJob)
    (db : Database) where
  retried-Preserved :
      (r : Retried now ids opts job db) → Preserved opts.max_training_attempts db r.after
  unfolding next_execution requeue_failed failed_retry_options is_failed_job requeued
  retried-Preserved r =
      let d = r.dispatched in
      record {
        unique = λ u. Dispatched-unique d u;
        bounded = λ k h. rw d.added (
            max_attempt-snoc k opts.max_training_attempts db.job_executions
              (next_execution now ids (chosen now ids opts job db) d.latest) h
              (λ _. omega (arith, d.numbered, r.attempts_left)));
        kept = λ k j found other. rw r.jobs (
            take_first-update_kept (is_failed_job job.id) (λ x. x.id == k) (requeued now)
              (λ y _. refl) db.training_jobs found (ground arith));
      }

  -- Without an execution to copy, the transaction does nothing or throws.
  retry_missing :
      any (of_training job.id) db.job_executions ≡ false
      → (retry_failed_job now ids opts job db ≡ some (db, false))
        ⊎ (retry_failed_job now ids opts job db ≡ none)
  unfolding retry_failed_job
  retry_missing h =
      let throws =
        dispatch_missing now ids (failed_retry_options ids.correlation_id opts job db)
          (requeue_failed now job.id db) h in
      elim (Bool-cases (leb opts.max_training_attempts (max_attempt job.id db.job_executions))) [
        | inl spent ↦ inl (rw spent refl)
        | inr left ↦ elim (Bool-cases (count (is_failed_job job.id) db.training_jobs == 0)) [
          | inl gone ↦ inl (rw left (rw gone refl))
          | inr there ↦ inr (rw left (rw there (ap counted throws)))
        ]
      ]

  -- A throw leaves no database to speak of; any other end preserves.
  retry-Preserved :
      (after : Database) (b : Bool)
      → retry_failed_job now ids opts job db ≡ some (after, b)
      → Preserved opts.max_training_attempts db after
  retry-Preserved after b h =
      let most = opts.max_training_attempts in
      let left =
        λ (d : Database) (c : Bool) (e : retry_failed_job now ids opts job db ≡ some (d, c)).
          ap (λ (p : Database × Bool). p.0) (eq_of_some (sym e ∙ h)) in
      elim (Bool-cases (any (of_training job.id) db.job_executions)) [
        | inl has ↦ elim (retry_failed_job-outcome now ids opts job db has) [
          | inl s ↦ subst (Preserved most db) (left db false s.result) (unchanged most db)
          | inr r ↦ subst (Preserved most db) (left r.after true r.result) (retried-Preserved r)
        ]
        | inr lacks ↦ elim (retry_missing lacks) [
          | inl idle ↦ subst (Preserved most db) (left db false idle) (unchanged most db)
          | inr throws ↦ absurd (cc (sym throws ∙ h))
        ]
      ]

Result-cases :
    (o : Option (Database × Bool))
    → (o ≡ none) ⊎ ((after : Database) × (b : Bool) × (o ≡ some (after, b)))
Result-cases none = inl refl
Result-cases (some (after, b)) = inr (after, b, refl)

module _ (env : Env) (opts : FailedRetryOptions) where
  settled-Preserved :
      (job : TrainingJob) (s : Database × ℕ) (aborted : Bool)
      → Preserved opts.max_training_attempts s.0
          (settle aborted (retry_failed_job env.now (env.ids job.id) opts job s.0) s).0
  unfolding settle
  settled-Preserved job s aborted =
      let most = opts.max_training_attempts in
      let body = retry_failed_job env.now (env.ids job.id) opts job s.0 in
      elim (Result-cases body) [
        | inl throws ↦
            subst (λ o. Preserved most s.0 (settle aborted o s).0) (sym throws) (unchanged most s.0)
        | inr (after, b, ends) ↦
            subst (λ o. Preserved most s.0 (settle aborted o s).0) (sym ends)
              (elim aborted as (λ a. Preserved most s.0 (settle a (some (after, b)) s).0) [
                | true ↦ unchanged most s.0
                | false ↦ retry-Preserved env.now (env.ids job.id) opts job s.0 after b ends
              ])
      ]

  candidates-Preserved :
      (jobs : List TrainingJob) (s : Database × ℕ)
      → Preserved opts.max_training_attempts s.0 (retry_candidates env opts jobs s).0
  unfolding retry_candidates
  candidates-Preserved [] s = unchanged opts.max_training_attempts s.0
  candidates-Preserved (job ∷ jobs) s =
      let next =
        settle (env.aborts job.id) (retry_failed_job env.now (env.ids job.id) opts job s.0) s in
      chained (settled-Preserved job s (env.aborts job.id)) (candidates-Preserved jobs next)

  pub retry_failed_training_jobs-Preserved :
      (db : Database)
      → Preserved opts.max_training_attempts db (retry_failed_training_jobs env opts db).0
  unfolding retry_failed_training_jobs
  retry_failed_training_jobs-Preserved db =
      candidates-Preserved (select (is_candidate env.now opts) db.training_jobs) (db, 0)

  -- Whatever the stage meets, transactions that throw or abort included, a job whose attempts are
  -- within the limit has none beyond the limit afterwards.
  pub retry_stage_bounded :
      (db : Database) (k : ℕ)
      → max_attempt k db.job_executions ≤ opts.max_training_attempts
      → max_attempt k (retry_failed_training_jobs env opts db).0.job_executions
        ≤ opts.max_training_attempts
  retry_stage_bounded db k h = (retry_failed_training_jobs-Preserved db).bounded k h

  -- Whatever the stage meets, a job that is not FAILED has the same row afterwards.
  pub retry_stage_kept :
      (db : Database) (k : ℕ) (j : TrainingJob)
      → take_first (λ x. x.id == k) db.training_jobs ≡ some j
      → job_status_eq j.status TrainingJobStatus.failed ≡ false
      → take_first (λ x. x.id == k) (retry_failed_training_jobs env opts db).0.training_jobs
        ≡ some j
  retry_stage_kept db k j found other =
      (retry_failed_training_jobs-Preserved db).kept k j found other
