-- ===== src/Training/Service/Stop.antt =====
-- `requestStop`: stop a running job, cancel one that has not started
-- (apps/api/src/training/training.service.ts).
use ikg_studio_model_trainin.Common.{
  ℕ, ◌≡◌, refl, ap, subst, eq_of_some, ◌∙◌, true, List, [], ◌∷◌, Option, none, some, String, arith,
}
use ikg_studio_model_trainin.Json.{end}
use ikg_studio_model_trainin.Database.{TrainingJobStatus, AuditActorType, TrainingJob, Database}
use ikg_studio_model_trainin.Http.{ApiError, Result, ok, err}
use ikg_studio_model_trainin.Training.Machine.{
  is_legal, Assignment, set_stop_requested_by_user_id, set_cancelled_by_user_id, TransitionInput,
  job_not_found, transition, apply_transition,
}
use ikg_studio_model_trainin.Training.Machine.Laws.{
  job_row, transition_allowed, apply-Applied, Applied,
}

abbrev pub not_stoppable : ApiError
not_stoppable = record { code = "TRAINING_NOT_STOPPABLE"; status = 409 }

pub record StopRequest : Type 0 where
  pub id : ℕ
  pub actor_id : ℕ
  pub correlation_id : ℕ

unfoldable pub user_transition :
    StopRequest → TrainingJobStatus → String → List Assignment → TransitionInput
user_transition r target action extra = record {
  job_id = r.id;
  to = target;
  actor_type = AuditActorType.user;
  actor_user_id = some r.actor_id;
  actor_ref = none;
  correlation_id = r.correlation_id;
  failure = none;
  extra_set = extra;
  audit_action = action;
  metadata = end;
}

unfoldable pub stop_input : StopRequest → TransitionInput
unfolding user_transition
stop_input r =
    user_transition r TrainingJobStatus.stopping "TRAINING_JOB_STOP_REQUESTED"
      (set_stop_requested_by_user_id r.actor_id ∷ [])

unfoldable pub cancel_input : StopRequest → TransitionInput
unfolding user_transition
cancel_input r =
    user_transition r TrainingJobStatus.cancelled "TRAINING_JOB_CANCELLED"
      (set_cancelled_by_user_id r.actor_id ∷ [])

-- The response body's `status`, where the transition succeeds.
reply : TrainingJobStatus → Result Database → Result (Database × TrainingJobStatus)
reply s (ok db) = ok (db, s)
reply s (err e) = err e

stop_by_status :
    ℕ → StopRequest → Database → TrainingJobStatus → Result (Database × TrainingJobStatus)
unfolding reply
stop_by_status now r db TrainingJobStatus.running =
    reply TrainingJobStatus.stopping (transition now (stop_input r) db)
stop_by_status now r db TrainingJobStatus.queued =
    reply TrainingJobStatus.cancelled (transition now (cancel_input r) db)
stop_by_status now r db TrainingJobStatus.preparing =
    reply TrainingJobStatus.cancelled (transition now (cancel_input r) db)
stop_by_status now r db TrainingJobStatus.scheduled =
    reply TrainingJobStatus.cancelled (transition now (cancel_input r) db)
stop_by_status now r db TrainingJobStatus.blocked =
    reply TrainingJobStatus.cancelled (transition now (cancel_input r) db)
stop_by_status now r db _ = err not_stoppable

stop_found : ℕ → StopRequest → Database → Option TrainingJob → Result (Database × TrainingJobStatus)
unfolding stop_by_status
stop_found now r db none = err job_not_found
stop_found now r db (some job) = stop_by_status now r db job.status

unfoldable pub request_stop : ℕ → StopRequest → Database → Result (Database × TrainingJobStatus)
unfolding stop_found
request_stop now r db = stop_found now r db (job_row r.id db)

-- What the request asks of a job in each status, if anything.
abbrev pub stop_plan : StopRequest → TrainingJobStatus → Option TransitionInput
stop_plan r TrainingJobStatus.running = some (stop_input r)
stop_plan r TrainingJobStatus.queued = some (cancel_input r)
stop_plan r TrainingJobStatus.preparing = some (cancel_input r)
stop_plan r TrainingJobStatus.scheduled = some (cancel_input r)
stop_plan r TrainingJobStatus.blocked = some (cancel_input r)
stop_plan r _ = none

-- The request makes exactly that transition, of its own job, and the table allows it.
abbrev IsPlanned : ℕ → StopRequest → Database → TrainingJobStatus → TransitionInput → Type 0
IsPlanned now r db s input =
    (stop_by_status now r db s ≡ reply input.to (transition now input db))
    × (input.job_id ≡ r.id)
    × (is_legal s input.to ≡ true)

planned :
    (now : ℕ) (r : StopRequest) (db : Database) (s : TrainingJobStatus) (input : TransitionInput)
    → stop_plan r s ≡ some input
    → IsPlanned now r db s input
unfolding stop_by_status stop_input cancel_input is_legal
planned now r db TrainingJobStatus.running input h =
    subst (IsPlanned now r db TrainingJobStatus.running) (eq_of_some h) (refl, refl, refl)
planned now r db TrainingJobStatus.queued input h =
    subst (IsPlanned now r db TrainingJobStatus.queued) (eq_of_some h) (refl, refl, refl)
planned now r db TrainingJobStatus.preparing input h =
    subst (IsPlanned now r db TrainingJobStatus.preparing) (eq_of_some h) (refl, refl, refl)
planned now r db TrainingJobStatus.scheduled input h =
    subst (IsPlanned now r db TrainingJobStatus.scheduled) (eq_of_some h) (refl, refl, refl)
planned now r db TrainingJobStatus.blocked input h =
    subst (IsPlanned now r db TrainingJobStatus.blocked) (eq_of_some h) (refl, refl, refl)
planned now r db _ input h = cc

-- A job that is RUNNING is moved to STOPPING, and one that is SCHEDULED, BLOCKED, QUEUED or
-- PREPARING to CANCELLED: the state machine never refuses the transition that the request picks.
pub request_stop-Applied :
    (now : ℕ) (r : StopRequest) (db : Database) (j : TrainingJob) (input : TransitionInput)
    → job_row r.id db ≡ some j
    → stop_plan r j.status ≡ some input
    → (after : Database) × (request_stop now r db ≡ ok (after, input.to))
      × Applied now input db after
unfolding request_stop
request_stop-Applied now r db j input found plan =
    let (shape, own, allowed) = planned now r db j.status input plan in
    let row : job_row input.job_id db ≡ some j = ap (λ k. job_row k db) own ∙ found in
    (
      apply_transition now input j db,
      ap (stop_found now r db) found
          ∙ shape
          ∙ ap (reply input.to) (transition_allowed now input db row allowed),
      apply-Applied now input db j row allowed,
    )

-- A job in STOPPING or in a terminal status is refused with 409 and nothing is written.
pub request_stop_refused :
    (now : ℕ) (r : StopRequest) (db : Database) (j : TrainingJob)
    → job_row r.id db ≡ some j
    → stop_plan r j.status ≡ none
    → request_stop now r db ≡ err not_stoppable
unfolding request_stop
request_stop_refused now r db j found plan = ap (stop_found now r db) found ∙ ground arith
