-- ===== src/Scheduler/Reconcile/Records.antt =====
-- The records of the other job types whose execution was lost: model conversions, dataset scans,
-- training datasets and model ingests (apps/scheduler/src/reconcile.ts). Each branch returns the
-- database and whether it failed the record.
use ikg_studio_model_trainin.Common.{
  ℕ, ◌+◌, Bool, true, false, not, ◌&&◌, ◌||◌, List, [], ◌∷◌, Option, none, some, String, any, count,
  take_first, update, str_eq, ◌==◌, if◌then◌else◌,
}
use ikg_studio_model_trainin.Database.{
  ModelConversion, ModelConversionStatus, SourceDatasetScan, DatasetScanStatus, SourceDataset,
  SourceDatasetStatus, TrainingDataset, ModelIngestTask, JobType, Database, insert_audit,
}
use ikg_studio_model_trainin.Scheduler.Entries.{lost_entry, lost_code}

abbrev pub conversion_is_running : ModelConversionStatus → Bool
conversion_is_running ModelConversionStatus.running = true
conversion_is_running _ = false

unfoldable pub is_live_conversion : ℕ → ModelConversion → Bool
is_live_conversion k c = c.id == k && conversion_is_running c.status

unfoldable pub lost_conversion : ℕ → ModelConversion → ModelConversion
lost_conversion now c = record c {
  status = ModelConversionStatus.failed;
  failure_code = lost_code;
  failure_message = some "Conversion execution lost: worker stopped heartbeating";
  finished_at = some now;
  row_version = c.row_version + 1;
}

unfoldable pub fail_conversion : ℕ → ℕ → ℕ → Database → Database × Bool
unfolding is_live_conversion lost_conversion lost_entry
fail_conversion now k correlation db =
    if count (is_live_conversion k) db.model_conversions == 0 then (db, false) else (
      insert_audit
          (lost_entry "MODEL_CONVERSION_FAILED" "MODEL_CONVERSION" k correlation
            JobType.model_conversion)
          (record db {
            model_conversions =
                update (is_live_conversion k) (lost_conversion now) db.model_conversions;
          }),
      true,
    )

-- PENDING or RUNNING.
abbrev pub scan_is_live : DatasetScanStatus → Bool
scan_is_live DatasetScanStatus.pending = true
scan_is_live DatasetScanStatus.running = true
scan_is_live _ = false

unfoldable pub is_live_scan : ℕ → SourceDatasetScan → Bool
is_live_scan k s = s.id == k && scan_is_live s.status

unfoldable pub lost_scan : ℕ → SourceDatasetScan → SourceDatasetScan
lost_scan now s = record s {
  status = DatasetScanStatus.failed;
  finished_at = some now;
  error_code = lost_code;
  error_message = some "Scan execution lost: worker stopped heartbeating";
}

abbrev pub is_scanning : SourceDatasetStatus → Bool
is_scanning SourceDatasetStatus.scanning = true
is_scanning _ = false

abbrev pub is_id : ℕ → Option ℕ → Bool
is_id k none = false
is_id k (some j) = j == k

-- The source dataset that still waits for the scan.
unfoldable pub awaits_scan : ℕ → ℕ → SourceDataset → Bool
awaits_scan source scan d = d.id == source && is_scanning d.status && is_id scan d.latest_scan_id

unfoldable pub reset_source : ℕ → SourceDataset → SourceDataset
reset_source now d = record d { status = SourceDatasetStatus.registered; updated_at = now }

reset_sources : ℕ → ℕ → Option SourceDatasetScan → Database → Database
unfolding awaits_scan reset_source
reset_sources now k none db = db
reset_sources now k (some s) db = record db {
  source_datasets =
      update (awaits_scan s.source_dataset_id k) (reset_source now) db.source_datasets;
}

mark_scan : ℕ → ℕ → ℕ → Database → Database
unfolding is_live_scan lost_scan lost_entry
mark_scan now k correlation db =
    insert_audit
      (lost_entry "DATASET_SCAN_FAILED" "SOURCE_DATASET_SCAN" k correlation JobType.dataset_scan)
      (record db {
        source_dataset_scans = update (is_live_scan k) (lost_scan now) db.source_dataset_scans;
      })

unfoldable pub fail_scan : ℕ → ℕ → ℕ → Database → Database × Bool
unfolding is_live_scan reset_sources mark_scan
fail_scan now k correlation db =
    let mid = mark_scan now k correlation db in
    if count (is_live_scan k) db.source_dataset_scans == 0
    then (db, false)
    else (reset_sources now k (take_first (λ s. s.id == k) mid.source_dataset_scans) mid, true)

unfoldable pub is_live_dataset : ℕ → TrainingDataset → Bool
is_live_dataset k d = d.id == k && (str_eq d.status "BUILDING" || str_eq d.status "VALIDATING")

unfoldable pub lost_training_dataset : ℕ → TrainingDataset → TrainingDataset
lost_training_dataset now d = record d {
  status = "INVALID";
  failure_code = lost_code;
  failure_message = some "Dataset job execution lost: worker stopped heartbeating";
  build_finished_at = some now;
}

unfoldable pub fail_training_dataset : ℕ → ℕ → ℕ → JobType → Database → Database × Bool
unfolding is_live_dataset lost_training_dataset lost_entry
fail_training_dataset now k correlation job_type db =
    if count (is_live_dataset k) db.training_datasets == 0 then (db, false) else (
      insert_audit (lost_entry "TRAINING_DATASET_FAILED" "TRAINING_DATASET" k correlation job_type)
          (record db {
            training_datasets =
                update (is_live_dataset k) (lost_training_dataset now) db.training_datasets;
          }),
      true,
    )

abbrev ended_ingest : List String
ended_ingest = "COMPLETED" ∷ "FAILED" ∷ "CANCELLED" ∷ []

unfoldable pub is_live_ingest : ℕ → ModelIngestTask → Bool
is_live_ingest k t = t.id == k && not (any (str_eq t.status) ended_ingest)

unfoldable pub lost_ingest : ℕ → ModelIngestTask → ModelIngestTask
lost_ingest now t = record t {
  status = "FAILED";
  failure_code = lost_code;
  failure_message = some "Ingest execution lost: worker stopped heartbeating";
  finished_at = some now;
}

unfoldable pub fail_ingest : ℕ → ℕ → ℕ → Database → Database × Bool
unfolding is_live_ingest lost_ingest lost_entry
fail_ingest now k correlation db =
    if count (is_live_ingest k) db.model_ingest_tasks == 0 then (db, false) else (
      insert_audit
          (lost_entry "MODEL_INGEST_FAILED" "MODEL_INGEST" k correlation JobType.model_ingest)
          (record db {
            model_ingest_tasks = update (is_live_ingest k) (lost_ingest now) db.model_ingest_tasks;
          }),
      true,
    )
