-- ===== src/Scheduler/Reconcile/Inference.antt =====
-- An inference dataset whose execution was lost: `finalizeInferenceOnLost`
-- (apps/scheduler/src/reconcile.ts).
pub mod Ending
use ikg_studio_model_trainin.Common.{
  ℕ, Bool, true, false, ◌&&◌, Option, none, some, String, count, take_first, update, ltb, ◌==◌,
  if◌then◌else◌,
}
use ikg_studio_model_trainin.Json.{text, number, field, end}
use ikg_studio_model_trainin.Database.{
  InferenceRunDataset, InferenceRunDatasetStatus, InferenceRun, InferenceRunStatus, AuditResult,
  AuditLog, Database, Tx, insert_audit,
}
use ikg_studio_model_trainin.Scheduler.Entries.{scheduler_entry, lost_code}

-- QUEUED, RUNNING or STOPPING.
abbrev pub is_active : InferenceRunDatasetStatus → Bool
is_active InferenceRunDatasetStatus.queued = true
is_active InferenceRunDatasetStatus.running = true
is_active InferenceRunDatasetStatus.stopping = true
is_active _ = false

abbrev pub is_stopping : InferenceRunDatasetStatus → Bool
is_stopping InferenceRunDatasetStatus.stopping = true
is_stopping _ = false

abbrev pub is_completed : InferenceRunDatasetStatus → Bool
is_completed InferenceRunDatasetStatus.completed = true
is_completed _ = false

abbrev pub is_failed : InferenceRunDatasetStatus → Bool
is_failed InferenceRunDatasetStatus.failed = true
is_failed _ = false

abbrev pub is_stopped : InferenceRunDatasetStatus → Bool
is_stopped InferenceRunDatasetStatus.stopped = true
is_stopped _ = false

-- Not COMPLETED, FAILED, CANCELLED or STOPPED.
abbrev pub is_pending : InferenceRunDatasetStatus → Bool
is_pending InferenceRunDatasetStatus.completed = false
is_pending InferenceRunDatasetStatus.failed = false
is_pending InferenceRunDatasetStatus.cancelled = false
is_pending InferenceRunDatasetStatus.stopped = false
is_pending _ = true

-- RUNNING or STOPPING.
abbrev pub is_open : InferenceRunStatus → Bool
is_open InferenceRunStatus.running = true
is_open InferenceRunStatus.stopping = true
is_open _ = false

unfoldable pub is_active_dataset : ℕ → InferenceRunDataset → Bool
is_active_dataset k d = d.id == k && is_active d.status

-- The UPDATE's columns: a dataset that was being stopped ends STOPPED, any other FAILED.
unfoldable pub lost_dataset : ℕ → Bool → InferenceRunDataset → InferenceRunDataset
lost_dataset now true d = record d {
  status = InferenceRunDatasetStatus.stopped;
  finished_at = some now;
  stopped_at = some now;
}
lost_dataset now false d = record d {
  status = InferenceRunDatasetStatus.failed;
  finished_at = some now;
  failure_code = lost_code;
  failure_message = some "Execution lost (heartbeat timeout)";
}

lost_dataset_entry : Bool → ℕ → ℕ → ℕ → AuditLog
unfolding scheduler_entry
lost_dataset_entry stopping k run correlation =
    scheduler_entry (if stopping then "INFERENCE_DATASET_STOPPED" else "INFERENCE_DATASET_FAILED")
      "INFERENCE_RUN_DATASET" k (if stopping then AuditResult.success else AuditResult.failure)
      correlation (if stopping then none else lost_code) (field "inference_run_id" (number run) end)

abbrev pub count_of_run : ℕ → (InferenceRunDatasetStatus → Bool) → Database → ℕ
count_of_run run test db =
    count (λ d. d.inference_run_id == run && test d.status) db.inference_run_datasets

-- The status in which a run with nothing pending ends.
unfoldable pub run_status : ℕ → ℕ → ℕ → InferenceRunStatus
run_status stopped completed failed =
    if ltb 0 stopped
    then InferenceRunStatus.stopped
    else if failed == 0
    then InferenceRunStatus.completed
    else if ltb 0 completed
    then InferenceRunStatus.partially_failed
    else InferenceRunStatus.failed

abbrev status_name : ℕ → ℕ → ℕ → String
status_name stopped completed failed =
    if ltb 0 stopped
    then "STOPPED"
    else if failed == 0
    then "COMPLETED"
    else if ltb 0 completed
    then "PARTIALLY_FAILED"
    else "FAILED"

abbrev is_good : ℕ → ℕ → Bool
is_good stopped failed = if ltb 0 stopped then true else failed == 0

unfoldable pub is_open_run : ℕ → InferenceRun → Bool
is_open_run run r = r.id == run && is_open r.status

unfoldable pub finished : ℕ → ℕ → ℕ → ℕ → InferenceRun → InferenceRun
unfolding run_status
finished now stopped completed failed r = record r {
  status = run_status stopped completed failed;
  finished_at = some now;
  stopped_at = if ltb 0 stopped then some now else r.stopped_at;
  updated_at = now;
}

unfoldable pub end_dataset : ℕ → Bool → ℕ → ℕ → ℕ → Database → Database
unfolding is_active_dataset lost_dataset lost_dataset_entry
end_dataset now stopping k run correlation db =
    insert_audit (lost_dataset_entry stopping k run correlation) (record db {
      inference_run_datasets =
          update (is_active_dataset k) (lost_dataset now stopping) db.inference_run_datasets;
    })

unfoldable pub write_counts : ℕ → ℕ → Database → Database
write_counts now run db = record db {
  inference_runs =
      update (λ r. r.id == run)
        (λ r. record r {
          completed_count = count_of_run run is_completed db;
          failed_count = count_of_run run is_failed db;
          updated_at = now;
        })
        db.inference_runs;
}

unfoldable pub finish_run : ℕ → ℕ → ℕ → Database → Database
unfolding is_open_run finished scheduler_entry
finish_run now run correlation db =
    let completed = count_of_run run is_completed db in
    let failed = count_of_run run is_failed db in
    let stopped = count_of_run run is_stopped db in
    let ended = record db {
      inference_runs =
          update (is_open_run run) (finished now stopped completed failed) db.inference_runs;
    } in
    if count (is_open_run run) db.inference_runs == 0
    then db
    else insert_audit
        (scheduler_entry "INFERENCE_RUN_FINISHED" "INFERENCE_RUN" run
          (if is_good stopped failed then AuditResult.success else AuditResult.failure) correlation
          none
          (field "status" (text (status_name stopped completed failed))
            (field "completed" (number completed) (field "failed" (number failed) end))))
        ended

unfoldable pub refinalise : ℕ → ℕ → ℕ → Database → Database
unfolding write_counts finish_run
refinalise now run correlation db =
    if count_of_run run is_pending db == 0 && ltb 0 (count_of_run run (λ _. true) db)
    then finish_run now run correlation (write_counts now run db)
    else write_counts now run db

finalize_of : ℕ → ℕ → ℕ → Database → Option InferenceRunDataset → Database × Bool
unfolding is_active_dataset end_dataset refinalise
finalize_of now k correlation db none = (db, false)
finalize_of now k correlation db (some d) =
    if count (is_active_dataset k) db.inference_run_datasets == 0 then (db, false) else (
      refinalise now d.inference_run_id correlation
          (end_dataset now (is_stopping d.status) k d.inference_run_id correlation db),
      true,
    )

-- `finalizeInferenceOnLost`.
unfoldable pub finalize_inference_on_lost : ℕ → ℕ → ℕ → Database → Database × Bool
unfolding finalize_of
finalize_inference_on_lost now k correlation db =
    finalize_of now k correlation db (take_first (λ d. d.id == k) db.inference_run_datasets)
