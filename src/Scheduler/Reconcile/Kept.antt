-- ===== src/Scheduler/Reconcile/Kept.antt =====
-- What a recovery preserves, whatever its job type: the unique constraint on attempts and the row
-- of every training job that has ended (apps/scheduler/src/reconcile.ts).
use ikg_studio_model_trainin.Common.{
  ℕ, ◌≡◌, ap, sym, ◌∙◌, true, Option, none, some, take_first, ◌==◌, subst,
}
use ikg_studio_model_trainin.Database.{TrainingJob, Database}
use ikg_studio_model_trainin.Execution.{AttemptsUnique}
use ikg_studio_model_trainin.Scheduler.Reconcile.Training.{is_terminal}

pub record Kept (before after : Database) : Type 0 where
  pub unique : AttemptsUnique before.job_executions → AttemptsUnique after.job_executions
  pub ended :
      (k : ℕ) (j : TrainingJob)
      → take_first (λ x. x.id == k) before.training_jobs ≡ some j
      → is_terminal j.status ≡ true
      → take_first (λ x. x.id == k) after.training_jobs ≡ some j

pub Kept-refl : (db : Database) → Kept db db
Kept-refl db = record { unique = λ u. u; ended = λ k j found over. found }

pub Kept-trans : {a b c : Database} → Kept a b → Kept b c → Kept a c
Kept-trans p q = record {
  unique = λ u. q.unique (p.unique u);
  ended = λ k j found over. q.ended k j (p.ended k j found over) over;
}

-- The executions and the training jobs are those of before.
abbrev pub SameJobs : Database → Database → Type 0
SameJobs before after =
    (after.job_executions ≡ before.job_executions) × (after.training_jobs ≡ before.training_jobs)

pub Same-Kept : {a b : Database} → SameJobs a b → Kept a b
Same-Kept (executions, jobs) = record {
  unique = λ u. subst AttemptsUnique (sym executions) u;
  ended = λ k j found over. ap (take_first (λ x. x.id == k)) jobs ∙ found;
}

-- A transaction that does not throw ends in such a database.
abbrev pub KeptBy {ℓ} : {A : Type ℓ} → Database → Option (Database × A) → Type 0
KeptBy before none = Unit
KeptBy before (some (after, a)) = Kept before after
