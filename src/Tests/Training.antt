-- ===== src/Tests/Training.antt =====
-- The state machine and the stop request at concrete jobs.
use ikg_studio_model_trainin.Common.{ℕ, ◌≡◌, refl, true, [], ◌∷◌, none, List}
use ikg_studio_model_trainin.Json.{end}
use ikg_studio_model_trainin.Database.{
  TrainingJobStatus, AuditActorType, Database, TrainingDataset, ModelStatus, Model,
}
use ikg_studio_model_trainin.Weights.{detect}
use ikg_studio_model_trainin.Http.{ok}
use ikg_studio_model_trainin.Training.Machine.{
  is_legal, TransitionInput, transition, transitioned, apply_transition,
}
use ikg_studio_model_trainin.Training.Machine.Laws.{Applied, transition-Applied}
use ikg_studio_model_trainin.Training.Machine.Paths.{
  transitions, transitions-start, starts, continue,
}
use ikg_studio_model_trainin.Training.Service.Stop.{
  StopRequest, stop_input, request_stop, request_stop-Applied,
}
use ikg_studio_model_trainin.Training.Service.Configuration.{
  Submission, ready_dataset, model_problem, weights_problem,
}
use ikg_studio_model_trainin.Training.Service.Retry.{retry}
use ikg_studio_model_trainin.Training.Service.Retry.Restarted.{Restarted, retry-Restarted}
use ikg_studio_model_trainin.Tests.Data.{job_at, database, new_ids}

abbrev input : TrainingJobStatus → TransitionInput
input s = record {
  job_id = 1;
  to = s;
  actor_type = AuditActorType.system;
  actor_user_id = none;
  actor_ref = none;
  correlation_id = 3;
  failure = none;
  extra_set = [];
  audit_action = "TRAINING_JOB_MOVED";
  metadata = end;
}

abbrev queued_database : Database
queued_database = database TrainingJobStatus.queued TrainingJobStatus.blocked

abbrev preparing : TransitionInput
preparing = input TrainingJobStatus.preparing

abbrev prepared : Database
prepared = apply_transition 500 preparing (job_at 1 TrainingJobStatus.queued) queued_database

transition-Applied_example : Applied 500 preparing queued_database prepared
unfolding transition is_legal
transition-Applied_example = transition-Applied 500 preparing queued_database prepared refl

abbrev chain : List (ℕ × TransitionInput)
chain =
    (500, preparing)
    ∷ (510, input TrainingJobStatus.running)
    ∷ (900, input TrainingJobStatus.completed)
    ∷ []

abbrev run_to_end : Database
run_to_end =
    let one = prepared in
    let j1 = transitioned 500 preparing (job_at 1 TrainingJobStatus.queued) in
    let two = apply_transition 510 (input TrainingJobStatus.running) j1 one in
    let j2 = transitioned 510 (input TrainingJobStatus.running) j1 in
    apply_transition 900 (input TrainingJobStatus.completed) j2 two

transitions-start_example : starts 1 chain ≡ true
unfolding transitions continue transition is_legal apply_transition transitioned
transitions-start_example =
    transitions-start 1 chain queued_database run_to_end (job_at 1 TrainingJobStatus.queued)
      (transitioned 900 (input TrainingJobStatus.completed) (
        transitioned 510 (input TrainingJobStatus.running)
          (transitioned 500 preparing (job_at 1 TrainingJobStatus.queued))))
      refl refl refl refl refl

abbrev request : StopRequest
request = record { id = 1; actor_id = 9; correlation_id = 3 }

abbrev running_database : Database
running_database = database TrainingJobStatus.running TrainingJobStatus.blocked

request_stop-Applied_example :
    (after : Database) × (request_stop 700 request running_database
      ≡ ok (after, TrainingJobStatus.stopping))
    × Applied 700 (stop_input request) running_database after
unfolding stop_input
request_stop-Applied_example =
    request_stop-Applied 700 request running_database (job_at 1 TrainingJobStatus.running)
      (stop_input request) refl refl

abbrev cats : TrainingDataset
cats = record {
  id = 5;
  dataset_type_id = 6;
  task_type = detect;
  status = "READY";
  failure_code = none;
  failure_message = none;
  build_finished_at = none;
}

abbrev base_model : Model
base_model = record { id = 7; status = ModelStatus.available; task_type = detect }

abbrev failed_database : Database
failed_database = record (database TrainingJobStatus.failed TrainingJobStatus.blocked) {
  training_datasets = cats ∷ [];
  models = base_model ∷ [];
}

abbrev submission : Submission
submission = record { actor_id = 9; correlation_id = 8; ids = new_ids }

-- The failed job has no dependency, so that it is queued with its second attempt.
retry-Restarted_example :
    (after : Database) × (retry
        (λ c. c.hyperparameters)
        (λ s. s)
        (λ hp. none)
        (λ hp. none)
        800
        submission
        1
        failed_database
      ≡ ok after)
    × Restarted 800 submission "{}" "{}" (job_at 1 TrainingJobStatus.failed) failed_database after
unfolding ready_dataset model_problem weights_problem
retry-Restarted_example =
    retry-Restarted (λ c. c.hyperparameters) (λ s. s) (λ hp. none) (λ hp. none) 800 submission
      failed_database (job_at 1 TrainingJobStatus.failed) 5 cats refl refl refl refl refl refl refl
