-- ===== src/Scheduler/Promote/Statuses.antt =====
-- The statuses that a job depends on (apps/scheduler/src/promote.ts), after an UPDATE of other columns.
use ikg_studio_model_trainin.Common.{
  ℕ, ◌≡◌, refl, inl, inr, Bool, List, [], ◌∷◌, update, Bool-cases,
}
use ikg_studio_model_trainin.Database.{
  TrainingJobStatus, TrainingJob, TrainingJobDependency, Database,
}
use ikg_studio_model_trainin.Scheduler.Promote.{status_of, joined, dependency_statuses}

module _ (p : TrainingJob → Bool) (f : TrainingJob → TrainingJob)
    (keeps : (j : TrainingJob) → ((f j).id ≡ j.id) × ((f j).status ≡ j.status)) where
  status_of-update :
      (k : ℕ) (jobs : List TrainingJob) (rest : List TrainingJobStatus)
      → status_of k (update p f jobs) rest ≡ status_of k jobs rest
  unfolding status_of
  status_of-update k [] rest = refl
  status_of-update k (j ∷ jobs) rest = elim (Bool-cases (p j)) [
    | inl hit ↦ rw (hit, (keeps j).0, (keeps j).1, status_of-update k jobs rest) refl
    | inr missed ↦ rw (missed, status_of-update k jobs rest) refl
  ]

  joined-update :
      (k : ℕ) (jobs : List TrainingJob) (deps : List TrainingJobDependency)
      → joined k (update p f jobs) deps ≡ joined k jobs deps
  unfolding joined
  joined-update k jobs [] = refl
  joined-update k jobs (d ∷ deps) =
      rw
        (
          status_of-update d.depends_on_job_id jobs (joined k (update p f jobs) deps),
          joined-update k jobs deps,
        )
        refl

  pub dependency_statuses-update :
      (k : ℕ) (db : Database)
      → dependency_statuses k (record db { training_jobs = update p f db.training_jobs })
        ≡ dependency_statuses k db
  unfolding dependency_statuses
  dependency_statuses-update k db = joined-update k db.training_jobs db.training_job_dependencies
