-- ===== src/Training/Service/Submit.antt =====
-- `create` and `clone`: a new training job, submitted at once
-- (apps/api/src/training/training.service.ts).
use ikg_studio_model_trainin.Common.{
  ℕ, Bool, not, ◌&&◌, ◌||◌, List, [], ◌∷◌, ◌++◌, Option, none, some, String, any, all, select,
  str_eq, lower_text, trim, is_empty_text, text_length, text_slice, ltb, ◌==◌, if◌then◌else◌,
}
use Prim.Native.String.{◌++◌ as joined}
use ikg_studio_model_trainin.Json.{number, field, end}
use ikg_studio_model_trainin.Http.{ApiError, Result, ok, err}
use ikg_studio_model_trainin.Database.{
  TrainingJobStatus, TrainingJob, TrainingJobDependency, TrainingDataset, Database,
}
use ikg_studio_model_trainin.Audit.{append}
use ikg_studio_model_trainin.Training.Machine.{job_not_found}
use ikg_studio_model_trainin.Training.Machine.Laws.{job_row}
use ikg_studio_model_trainin.Training.Service.Configuration.{
  Configuration, Submission, problem, ready_dataset, model_problem, submitted_entry,
  weights_problem, dispatch_initial,
}

pub record NewJob : Type 0 where
  pub name : String
  pub training_dataset_id : ℕ
  pub base_model_id : Option ℕ
  pub depends_on_job_ids : List ℕ

-- `assertJobNameAvailable`.
unfoldable pub is_name_taken : ℕ → String → Database → Bool
is_name_taken dataset_type name db =
    any (λ j. j.dataset_type_id == dataset_type && str_eq (lower_text j.name) (lower_text name))
      db.training_jobs

-- The inserted row, with the table's defaults.
unfoldable pub new_job :
    ℕ → ℕ → String → TrainingDataset → Option ℕ → String → Option ℕ → ℕ → TrainingJob
new_job now id name ds base hp source actor = record {
  id = id;
  name = name;
  dataset_type_id = ds.dataset_type_id;
  cloned_from_job_id = source;
  status = TrainingJobStatus.queued;
  training_dataset_id = some ds.id;
  base_model_id = base;
  hyperparameters = hp;
  configuration_hash = "";
  configuration_snapshot = "{}";
  row_version = 1;
  time = λ c. none;
  cancelled_by_user_id = none;
  stop_requested_by_user_id = none;
  updated_by_user_id = some actor;
  failure_stage = none;
  failure_code = none;
  failure_message = none;
  result_model_id = none;
}

abbrev pub insert_job : TrainingJob → Database → Database
insert_job j db = record db { training_jobs = db.training_jobs ++ j ∷ [] }

-- `new Set(…)`, without the job itself.
unfoldable pub distinct : ℕ → List ℕ → List ℕ
distinct id [] = []
distinct id (d ∷ ds) =
    let rest = distinct id ds in if d == id then rest else d ∷ select (λ e. not (e == d)) rest

dependency_rows : ℕ → List ℕ → List TrainingJobDependency
dependency_rows id [] = []
dependency_rows id (d ∷ ds) = record { job_id = id; depends_on_job_id = d } ∷ dependency_rows id ds

-- The dependencies' rows, where every job is there.
unfoldable pub insert_dependencies : ℕ → List ℕ → Database → Result Database
unfolding distinct dependency_rows
insert_dependencies id deps db =
    if all (λ d. any (λ j. j.id == d) db.training_jobs) (distinct id deps)
    then ok (record db {
      training_job_dependencies =
          db.training_job_dependencies ++ dependency_rows id (distinct id deps);
    })
    else err job_not_found

module _ (render : Configuration → String) (sha256 : String → String)
    (yolo_version yolo_size : String → Option String) where
  dispatch_with :
      ℕ → Submission → ℕ → TrainingDataset → String → Option ℕ → Result Database → Result Database
  unfolding dispatch_initial
  dispatch_with now by id ds hp base (err e) = err e
  dispatch_with now by id ds hp base (ok db) =
      dispatch_initial render sha256 yolo_version yolo_size now by id ds hp base
        "TRAINING_JOB_SUBMITTED" db

  create_allowed :
      ℕ
      → Submission
      → ℕ
      → NewJob
      → String
      → TrainingDataset
      → Database
      → Option ApiError
      → Option ApiError
      → Result Database
  unfolding is_name_taken new_job insert_dependencies dispatch_with
  create_allowed now by id input hp ds db (some e) weights = err e
  create_allowed now by id input hp ds db none (some e) = err e
  create_allowed now by id input hp ds db none none =
      if is_name_taken ds.dataset_type_id (trim input.name) db
      then err (problem "TRAINING_JOB_NAME_TAKEN" 409)
      else dispatch_with now by id ds hp input.base_model_id (
          insert_dependencies id input.depends_on_job_ids (
            insert_job (new_job now id (trim input.name) ds input.base_model_id hp none by.actor_id)
              db))

  create_on :
      ℕ → Submission → ℕ → NewJob → String → Database → Result TrainingDataset → Result Database
  unfolding create_allowed model_problem weights_problem
  create_on now by id input hp db (err e) = err e
  create_on now by id input hp db (ok ds) =
      create_allowed now by id input hp ds db (model_problem ds.task_type input.base_model_id db)
        (weights_problem render sha256 yolo_version yolo_size hp ds.task_type input.base_model_id)

  create_given : ℕ → Submission → ℕ → NewJob → Database → Result String → Result Database
  unfolding create_on ready_dataset
  create_given now by id input db (err e) = err e
  create_given now by id input db (ok hp) =
      create_on now by id input hp db (ready_dataset input.training_dataset_id db)

  -- `create`, with the id that is drawn and what `normalizeHyperparameters` answers.
  unfoldable pub create : ℕ → Submission → ℕ → NewJob → Result String → Database → Result Database
  unfolding create_given
  create now by id input hp db =
      if is_empty_text (trim input.name) || ltb 150 (text_length (trim input.name))
      then err (problem "VALIDATION_FAILED" 400)
      else create_given now by id input db hp

  clone_allowed :
      ℕ
      → Submission
      → ℕ
      → TrainingJob
      → TrainingDataset
      → Database
      → Option ApiError
      → Option ApiError
      → Result Database
  unfolding is_name_taken new_job submitted_entry append dispatch_initial
  clone_allowed now by id src ds db (some e) weights = err e
  clone_allowed now by id src ds db none (some e) = err e
  clone_allowed now by id src ds db none none =
      let name = text_slice 150 (joined src.name " (clone)") in
      if is_name_taken ds.dataset_type_id name db
      then err (problem "TRAINING_JOB_NAME_TAKEN" 409)
      else dispatch_initial render sha256 yolo_version yolo_size now by id ds src.hyperparameters
          src.base_model_id "TRAINING_JOB_SUBMITTED"
          (append
            (submitted_entry id by "TRAINING_JOB_CLONED"
              (field "cloned_from_job_id" (number src.id) end))
            (insert_job
              (new_job now id name ds src.base_model_id src.hyperparameters (some src.id)
                by.actor_id)
              db))

  clone_on : ℕ → Submission → ℕ → TrainingJob → Database → Result TrainingDataset → Result Database
  unfolding clone_allowed model_problem weights_problem
  clone_on now by id src db (err e) = err e
  clone_on now by id src db (ok ds) =
      clone_allowed now by id src ds db (model_problem ds.task_type src.base_model_id db) (
        weights_problem render sha256 yolo_version yolo_size src.hyperparameters ds.task_type
          src.base_model_id)

  clone_of : ℕ → Submission → ℕ → TrainingJob → Database → Option ℕ → Result Database
  unfolding clone_on ready_dataset
  clone_of now by id src db none = err (problem "VALIDATION_FAILED" 400)
  clone_of now by id src db (some d) = clone_on now by id src db (ready_dataset d db)

  clone_found : ℕ → Submission → ℕ → Database → Option TrainingJob → Result Database
  unfolding clone_of
  clone_found now by id db none = err job_not_found
  clone_found now by id db (some src) = clone_of now by id src db src.training_dataset_id

  -- `clone` of the job `k`, with the id that is drawn.
  unfoldable pub clone : ℕ → Submission → ℕ → ℕ → Database → Result Database
  unfolding clone_found
  clone now by id k db = clone_found now by id db (job_row k db)
