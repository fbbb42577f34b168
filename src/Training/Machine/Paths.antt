-- ===== src/Training/Machine/Paths.antt =====
-- The paths of the transition table, and what a chain of transitions says of a job's history
-- (apps/api/src/training/training-state-machine.ts, `LEGAL`).
use ikg_studio_model_trainin.Common.{
  ℕ, ◌≡◌, refl, sym, ap, ◌∙◌, ◌⊎◌, inl, inr, Bool, true, false, ◌&&◌, ◌||◌, List, [], ◌∷◌, some,
  eq_of_some, ◌==◌, ==_iff, arith, Bool-cases,
}
use ikg_studio_model_trainin.Database.{TrainingJobStatus, job_status_eq, TrainingJob, Database}
use ikg_studio_model_trainin.Http.{ApiError, Result, ok, err}
use ikg_studio_model_trainin.Training.Machine.{is_legal, TransitionInput, transition, transitioned}
use ikg_studio_model_trainin.Training.Machine.Laws.{
  Applied-moved, Applied-others, job_row, ok-injective, transition-Applied, transitioned-Moved,
}

-- `TERMINAL`.
abbrev pub is_terminal : TrainingJobStatus → Bool
is_terminal TrainingJobStatus.completed = true
is_terminal TrainingJobStatus.failed = true
is_terminal TrainingJobStatus.cancelled = true
is_terminal TrainingJobStatus.stopped = true
is_terminal _ = false

-- A terminal status is left only for QUEUED or BLOCKED.
pub terminal_leaves :
    (s t : TrainingJobStatus)
    → is_terminal s ≡ true
    → is_legal s t ≡ true
    → (t ≡ TrainingJobStatus.queued) ⊎ (t ≡ TrainingJobStatus.blocked)
unfolding is_legal
terminal_leaves s t h l = ground arith

pub data Route (s : TrainingJobStatus) : TrainingJobStatus → Type 0 where
  here : Route s s
  step : {t u : TrainingJobStatus} → Route s t → is_legal t u ≡ true → Route s u

join : {s t u : TrainingJobStatus} → Route s t → Route t u → Route s u
join r here = r
join r (step q l) = step (join r q) l

from_queued : Route TrainingJobStatus.queued TrainingJobStatus.completed
unfolding is_legal
from_queued =
    step {t = TrainingJobStatus.running}
      (step {t = TrainingJobStatus.preparing} (step {t = TrainingJobStatus.queued} here refl) refl)
      refl

-- From every status the table has a way to COMPLETED: no status is a dead end.
pub Route-completed : (s : TrainingJobStatus) → Route s TrainingJobStatus.completed
unfolding is_legal
Route-completed TrainingJobStatus.scheduled = join (step here refl) from_queued
Route-completed TrainingJobStatus.queued = from_queued
Route-completed TrainingJobStatus.preparing =
    step {t = TrainingJobStatus.running} (step here refl) refl
Route-completed TrainingJobStatus.running = step here refl
Route-completed TrainingJobStatus.stopping =
    join (step {t = TrainingJobStatus.stopped} (step here refl) refl) from_queued
Route-completed TrainingJobStatus.completed = here
Route-completed TrainingJobStatus.failed = join (step here refl) from_queued
Route-completed TrainingJobStatus.cancelled = join (step here refl) from_queued
Route-completed TrainingJobStatus.stopped = join (step here refl) from_queued
Route-completed TrainingJobStatus.blocked = join (step here refl) from_queued

-- A job that has not started: it is neither RUNNING nor STOPPING, and has no outcome of a run.
abbrev pub has_not_run : TrainingJobStatus → Bool
has_not_run TrainingJobStatus.running = false
has_not_run TrainingJobStatus.stopping = false
has_not_run TrainingJobStatus.completed = false
has_not_run TrainingJobStatus.stopped = false
has_not_run _ = true

not_run_step :
    (s t : TrainingJobStatus)
    → has_not_run s ≡ true
    → is_legal s t ≡ true
    → (t ≡ TrainingJobStatus.running) ⊎ (has_not_run t ≡ true)
unfolding is_legal
not_run_step s t h l = ground arith

-- The next of a chain of transitions, if the last one succeeded.
unfoldable pub continue : (Database → Result Database) → Result Database → Result Database
continue more (ok after) = more after
continue more (err e) = err e

-- Transitions in a row, each at its own time; the first that is refused ends the chain.
unfoldable pub transitions : List (ℕ × TransitionInput) → Database → Result Database
unfolding continue
transitions [] db = ok db
transitions ((now, input) ∷ more) db = continue (transitions more) (transition now input db)

-- The chain asks for job `k` to be RUNNING.
abbrev pub starts : ℕ → List (ℕ × TransitionInput) → Bool
starts k [] = false
starts k ((now, input) ∷ more) =
    (input.job_id == k && job_status_eq input.to TrainingJobStatus.running) || starts k more

Result-cases :
    (r : Result Database) → ((db : Database) × (r ≡ ok db)) ⊎ ((e : ApiError) × (r ≡ err e))
Result-cases (ok db) = inl (db, refl)
Result-cases (err e) = inr (e, refl)

-- One step of the chain, for a job that has not run.
first_step :
    (k now : ℕ) (input : TransitionInput) (db mid : Database) (j : TrainingJob)
    → job_row k db ≡ some j
    → has_not_run j.status ≡ true
    → transition now input db ≡ ok mid
    → ((input.job_id == k && job_status_eq input.to TrainingJobStatus.running) ≡ true)
      ⊎ ((m : TrainingJob) × (job_row k mid ≡ some m) × (has_not_run m.status ≡ true))
first_step k now input db mid j found fresh h =
    let a = transition-Applied now input db mid h in
    elim (Bool-cases (input.job_id == k)) [
      | inl own ↦
          let same : input.job_id ≡ k = (==_iff _ _).0 own in
          let before : job_row input.job_id db ≡ some j = ap (λ x. job_row x db) same ∙ found in
          let job : a.job ≡ j = eq_of_some (sym a.found ∙ before) in
          let allowed : is_legal j.status input.to ≡ true =
            ap (λ (x : TrainingJob). is_legal x.status input.to) (sym job) ∙ a.allowed in
          elim (not_run_step j.status input.to fresh allowed) [
            | inl asked ↦ inl (rw own (rw asked refl))
            | inr still ↦ inr (
              transitioned now input a.job,
              ap (λ x. job_row x mid) (sym same) ∙ Applied-moved a,
              ap has_not_run (transitioned-Moved now input a.job).at_target ∙ still,
            )
          ]
      | inr other ↦ inr (j, Applied-others a k (ground arith) ∙ found, fresh)
    ]

-- A chain of transitions that takes a job from a status before its run to one during or after it
-- asks at some point for the job to be RUNNING: no job is COMPLETED, STOPPING or STOPPED unrun.
pub transitions-start :
    (k : ℕ) (chain : List (ℕ × TransitionInput)) (db after : Database) (j j' : TrainingJob)
    → job_row k db ≡ some j
    → has_not_run j.status ≡ true
    → transitions chain db ≡ ok after
    → job_row k after ≡ some j'
    → has_not_run j'.status ≡ false
    → starts k chain ≡ true
unfolding transitions continue
transitions-start k [] db after j j' found fresh h found' run =
    let same : j ≡ j' = eq_of_some (sym found ∙ ap (job_row k) (ok-injective h) ∙ found') in
    absurd (cc (sym (ap (λ (x : TrainingJob). has_not_run x.status) same ∙ run) ∙ fresh))
transitions-start k ((now, input) ∷ more) db after j j' found fresh h found' run =
    elim (Result-cases (transition now input db)) [
      | inl (mid, e) ↦ elim (first_step k now input db mid j found fresh e) [
        | inl asked ↦ rw asked refl
        | inr (m, found_m, fresh_m) ↦
            let later =
              transitions-start k more mid after m j' found_m fresh_m
                (sym (ap (continue (transitions more)) e) ∙ h) found' run in
            rw later (ground arith)
      ]
      | inr (e, refused) ↦ absurd (cc (sym (ap (continue (transitions more)) refused) ∙ h))
    ]
