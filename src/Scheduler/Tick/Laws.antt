-- ===== src/Scheduler/Tick/Laws.antt =====
-- What a tick preserves (apps/scheduler/src/index.ts, `tick`).
use ikg_studio_model_trainin.Common.{
  ℕ, ◌≡◌, refl, ap, subst, sym, ◌∙◌, Bool, true, false, List, [], ◌∷◌, some, take_first, ◌==◌,
  Bool-cases, inl, inr, leb, select, arith,
}
use ikg_studio_model_trainin.Database.{
  TrainingJobStatus, job_status_eq, TrainingJob, DatasetType, Database,
}
use ikg_studio_model_trainin.Execution.{AttemptsUnique}
use ikg_studio_model_trainin.Scheduler.Retry.Failed.{retry_failed_training_jobs-Preserved}
use ikg_studio_model_trainin.Scheduler.Promote.Laws.{promote-Held}
use ikg_studio_model_trainin.Scheduler.Reconcile.Kept.{SameJobs}
use ikg_studio_model_trainin.Scheduler.Reconcile.Training.{is_terminal}
use ikg_studio_model_trainin.Scheduler.Reconcile.Laws.{reconcile-Kept}
use ikg_studio_model_trainin.Scheduler.Workers.{mark_stale_workers_offline}
use ikg_studio_model_trainin.Scheduler.Reindex.{
  is_due, dispatch_reindex, dispatch_all, dispatch_periodic_reindexes,
}
use ikg_studio_model_trainin.Scheduler.Tick.{
  Config, Stage, Run, stages, retry_options, failed_options, stage_body, run_stage, run_list,
  run_stages, tick,
}

-- COMPLETED, CANCELLED and STOPPED: the ends that the scheduler never leaves. FAILED is not one.
abbrev pub is_closed : TrainingJobStatus → Bool
is_closed TrainingJobStatus.completed = true
is_closed TrainingJobStatus.cancelled = true
is_closed TrainingJobStatus.stopped = true
is_closed _ = false

pub record Safe (before after : Database) : Type 0 where
  pub unique : AttemptsUnique before.job_executions → AttemptsUnique after.job_executions
  pub closed :
      (k : ℕ) (j : TrainingJob)
      → take_first (λ x. x.id == k) before.training_jobs ≡ some j
      → is_closed j.status ≡ true
      → take_first (λ x. x.id == k) after.training_jobs ≡ some j

pub Safe-refl : (db : Database) → Safe db db
Safe-refl db = record { unique = λ u. u; closed = λ k j found _. found }

pub Safe-trans : {a b c : Database} → Safe a b → Safe b c → Safe a c
Safe-trans p q = record {
  unique = λ u. q.unique (p.unique u);
  closed = λ k j found over. q.closed k j (p.closed k j found over) over;
}

Same-Safe : {a b : Database} → SameJobs a b → Safe a b
Same-Safe (executions, jobs) = record {
  unique = λ u. subst AttemptsUnique (sym executions) u;
  closed = λ k j found over. ap (take_first (λ x. x.id == k)) jobs ∙ found;
}

closed_not_blocked :
    (s : TrainingJobStatus) → is_closed s ≡ true → job_status_eq s TrainingJobStatus.blocked ≡ false
closed_not_blocked s h = ground arith

closed_not_failed :
    (s : TrainingJobStatus) → is_closed s ≡ true → job_status_eq s TrainingJobStatus.failed ≡ false
closed_not_failed s h = ground arith

closed_is_terminal : (s : TrainingJobStatus) → is_closed s ≡ true → is_terminal s ≡ true
closed_is_terminal s h = ground arith

workers_same :
    (now timeout : ℕ) (db : Database) → SameJobs db (mark_stale_workers_offline now timeout db).0
unfolding mark_stale_workers_offline
workers_same now timeout db = (refl, refl)

dispatched_same :
    (now : ℕ) (ids : ℕ → ℕ) (ts : List DatasetType) (db : Database)
    → SameJobs db (dispatch_all now ids ts db)
unfolding dispatch_all dispatch_reindex
dispatched_same now ids [] db = (refl, refl)
dispatched_same now ids (t ∷ ts) db =
    dispatched_same now ids ts (dispatch_reindex now (ids t.id) t.id db)

reindex_same :
    (now : ℕ) (ids : ℕ → ℕ) (interval : ℕ) (db : Database)
    → SameJobs db (dispatch_periodic_reindexes now ids interval db).0
unfolding dispatch_periodic_reindexes
reindex_same now ids interval db = elim (Bool-cases (leb interval 0)) [
  | inl off ↦ rw off (refl, refl)
  | inr on ↦ rw on (dispatched_same now ids (select (is_due now interval db) db.dataset_types) db)
]

body-Safe : (c : Config) (run : Run) (s : Stage) (db : Database) → Safe db (stage_body c run s db)
unfolding stage_body
body-Safe c run Stage.reconcile db =
    let kept = reconcile-Kept run.env c.execution_stale_timeout_s (retry_options c) db in
    record {
      unique = λ u. kept.unique u;
      closed = λ k j found over. kept.ended k j found (closed_is_terminal j.status over);
    }
body-Safe c run Stage.retry db =
    let kept = retry_failed_training_jobs-Preserved run.env (failed_options c) db in
    record {
      unique = λ u. kept.unique u;
      closed = λ k j found over. kept.kept k j found (closed_not_failed j.status over);
    }
body-Safe c run Stage.promote db =
    let held = promote-Held run.env db in
    record {
      unique = λ u. held.unique u;
      closed = λ k j found over. held.others k j found (closed_not_blocked j.status over);
    }
body-Safe c run Stage.workers db =
    Same-Safe (workers_same run.env.now c.worker_offline_timeout_s db)
body-Safe c run Stage.reindex db =
    Same-Safe (reindex_same run.env.now run.correlations c.dataset_reindex_interval_s db)

pub run_stage-Safe :
    (c : Config) (run : Run) (s : Stage) (db : Database) → Safe db (run_stage c run s db)
unfolding run_stage
run_stage-Safe c run s db = elim (Bool-cases run.throws) [
  | inl thrown ↦ rw thrown (Safe-refl db)
  | inr fine ↦ rw fine (body-Safe c run s db)
]

list-Safe :
    (c : Config) (runs : Stage → Run) (ss : List Stage) (db : Database)
    → Safe db (run_list c runs ss db)
unfolding run_list
list-Safe c runs [] db = Safe-refl db
list-Safe c runs (s ∷ more) db =
    Safe-trans (run_stage-Safe c (runs s) s db) (list-Safe c runs more (run_stage c (runs s) s db))

pub tick-Safe :
    (c : Config) (runs : Stage → Run) (is_running locked : Bool) (db : Database)
    → Safe db (tick c runs is_running locked db)
unfolding tick run_stages
tick-Safe c runs true locked db = Safe-refl db
tick-Safe c runs false true db = list-Safe c runs stages db
tick-Safe c runs false false db = Safe-refl db

-- Whatever a tick meets, with stages and transactions that fail or not: if no two executions of a
-- job shared an attempt number, none do afterwards.
pub tick_unique :
    (c : Config) (runs : Stage → Run) (is_running locked : Bool) (db : Database)
    → AttemptsUnique db.job_executions
    → AttemptsUnique (tick c runs is_running locked db).job_executions
tick_unique c runs is_running locked db u = (tick-Safe c runs is_running locked db).unique u

-- Whatever a tick meets, a training job that was COMPLETED, CANCELLED or STOPPED has the same row
-- after it.
pub tick-closed :
    (c : Config) (runs : Stage → Run) (is_running locked : Bool) (db : Database) (k : ℕ)
    (j : TrainingJob)
    → take_first (λ x. x.id == k) db.training_jobs ≡ some j
    → is_closed j.status ≡ true
    → take_first (λ x. x.id == k) (tick c runs is_running locked db).training_jobs ≡ some j
tick-closed c runs is_running locked db k j found over =
    (tick-Safe c runs is_running locked db).closed k j found over
