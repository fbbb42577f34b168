-- ===== src/Scheduler/Promote/Laws.antt =====
-- What the promotion stage preserves (apps/scheduler/src/promote.ts).
use ikg_studio_model_trainin.Common.{
  ℕ, ◌≡◌, refl, ap, sym, subst, inl, inr, Bool, true, false, List, [], ◌∷◌, Option, none, some, any,
  all, count, select, take_first, take_first-update_kept, ◌==◌, Bool-cases, Option-cases, arith,
}
use ikg_studio_model_trainin.Database.{TrainingJobStatus, job_status_eq, TrainingJob, Database}
use ikg_studio_model_trainin.Execution.{AttemptsUnique}
use ikg_studio_model_trainin.Scheduler.Retry.{NewIds}
use ikg_studio_model_trainin.Scheduler.Retry.Stage.{Env}
use ikg_studio_model_trainin.Scheduler.Retry.Fresh.{
  dispatch_fresh, fresh_unique, dispatch_fresh_missing,
}
use ikg_studio_model_trainin.Scheduler.Promote.{
  Promotion, PromoteResult, dependency_statuses, is_dead, is_completed, is_blocked_job, unblocked,
  dependency_failed, update_blocked, fail_blocked, after_dispatch, queue_blocked, promote_locked,
  promote_job, settle, promote_candidates, promote_blocked_training_jobs,
}

-- The unique constraint on attempts survives, and so does the row of a job that is not BLOCKED.
pub record Held (before after : Database) : Type 0 where
  pub unique : AttemptsUnique before.job_executions → AttemptsUnique after.job_executions
  pub others :
      (k : ℕ) (j : TrainingJob)
      → take_first (λ x. x.id == k) before.training_jobs ≡ some j
      → job_status_eq j.status TrainingJobStatus.blocked ≡ false
      → take_first (λ x. x.id == k) after.training_jobs ≡ some j

Held-refl : (db : Database) → Held db db
Held-refl db = record { unique = λ u. u; others = λ k j found _. found }

Held-trans : {a b c : Database} → Held a b → Held b c → Held a c
Held-trans p q = record {
  unique = λ u. q.unique (p.unique u);
  others = λ k j found other. q.others k j (p.others k j found other) other;
}

-- A transaction that does not throw holds these.
abbrev HeldBy {ℓ} : {A : Type ℓ} → Database → Option (Database × A) → Type 0
HeldBy before none = Unit
HeldBy before (some (after, a)) = Held before after

update_blocked-others :
    (k i : ℕ) (f : TrainingJob → TrainingJob) (db : Database) (j : TrainingJob)
    → ((x : TrainingJob) → (f x).id ≡ x.id)
    → take_first (λ x. x.id == i) db.training_jobs ≡ some j
    → job_status_eq j.status TrainingJobStatus.blocked ≡ false
    → take_first (λ x. x.id == i) (update_blocked k f db).training_jobs ≡ some j
unfolding update_blocked is_blocked_job
update_blocked-others k i f db j same found other =
    take_first-update_kept (is_blocked_job k) (λ x. x.id == i) f (λ y _. ap (λ n. n == i) (same y))
      db.training_jobs found (ground arith)

module _ (now : ℕ) (ids : NewIds) (k : ℕ) (db : Database) where
  failed-Held : Held db (fail_blocked now ids k db).0
  unfolding fail_blocked update_blocked dependency_failed
  failed-Held = elim (Bool-cases (count (is_blocked_job k) db.training_jobs == 0)) [
    | inl gone ↦ rw gone (Held-refl db)
    | inr there ↦ rw there (record {
      unique = λ u. u;
      others = λ i j found other.
          update_blocked-others k i (dependency_failed now) db j (λ _. refl) found other;
    })
  ]

  queued-Held : HeldBy db (queue_blocked now ids k db)
  unfolding queue_blocked update_blocked after_dispatch unblocked
  queued-Held =
      let mid = update_blocked k (unblocked now) db in
      elim (Bool-cases (count (is_blocked_job k) db.training_jobs == 0)) [
        | inl gone ↦ rw gone (Held-refl db)
        | inr there ↦
            rw there
              (elim (Option-cases (take_first (λ (j : TrainingJob). j.id == k) mid.training_jobs)) [
                | inl missing ↦
                    subst (λ o. HeldBy db (after_dispatch k ids o))
                      (sym (dispatch_fresh_missing now ids k ids.correlation_id mid missing)) tt
                | inr (job, found) ↦
                    subst (λ o. HeldBy db (after_dispatch k ids o))
                      (sym (dispatch_fresh now ids k ids.correlation_id mid job found))
                      (record {
                        unique = fresh_unique now ids k ids.correlation_id mid job found;
                        others = λ i j here other.
                            update_blocked-others k i (unblocked now) db j (λ _. refl) here other;
                      })
              ])
      ]

  locked-Held : (row : Option TrainingJob) → HeldBy db (promote_locked now ids k db row)
  unfolding promote_locked
  locked-Held none = Held-refl db
  locked-Held (some row) = elim (Bool-cases (any is_dead (dependency_statuses k db))) [
    | inl dead ↦ rw dead failed-Held
    | inr alive ↦ elim (Bool-cases (all is_completed (dependency_statuses k db))) [
      | inl done ↦ rw alive (rw done queued-Held)
      | inr pending ↦ rw alive (rw pending (Held-refl db))
    ]
  ]

  job-Held : HeldBy db (promote_job now ids k db)
  unfolding promote_job
  job-Held = locked-Held (take_first (λ j. j.id == k) db.training_jobs)

settle-Held :
    (aborted : Bool) (o : Option (Database × Promotion)) (s : Database × PromoteResult)
    → HeldBy s.0 o
    → Held s.0 (settle aborted o s).0
unfolding settle
settle-Held aborted none s h = Held-refl s.0
settle-Held true (some (after, p)) (db, r) h = Held-refl db
settle-Held false (some (after, p)) (db, r) h = h

candidates-Held :
    (env : Env) (jobs : List TrainingJob) (s : Database × PromoteResult)
    → Held s.0 (promote_candidates env jobs s).0
unfolding promote_candidates
candidates-Held env [] s = Held-refl s.0
candidates-Held env (job ∷ jobs) s =
    let o = promote_job env.now (env.ids job.id) job.id s.0 in
    let next = settle (env.aborts job.id) o s in
    Held-trans (settle-Held (env.aborts job.id) o s (job-Held env.now (env.ids job.id) job.id s.0))
      (candidates-Held env jobs next)

pub promote-Held : (env : Env) (db : Database) → Held db (promote_blocked_training_jobs env db).0
unfolding promote_blocked_training_jobs
promote-Held env db =
    candidates-Held env
      (select (λ j. job_status_eq j.status TrainingJobStatus.blocked) db.training_jobs)
      (db, record { promoted = 0; failed = 0 })

-- Whatever the stage meets, transactions that throw or abort included, a job that is not BLOCKED
-- has the same row afterwards.
pub promote_stage_kept :
    (env : Env) (db : Database) (k : ℕ) (j : TrainingJob)
    → take_first (λ x. x.id == k) db.training_jobs ≡ some j
    → job_status_eq j.status TrainingJobStatus.blocked ≡ false
    → take_first (λ x. x.id == k) (promote_blocked_training_jobs env db).0.training_jobs ≡ some j
promote_stage_kept env db k j found other = (promote-Held env db).others k j found other
