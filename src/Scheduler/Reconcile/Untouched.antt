-- ===== src/Scheduler/Reconcile/Untouched.antt =====
-- The recoveries of the other job types leave executions and training jobs alone
-- (apps/scheduler/src/reconcile.ts).
use ikg_studio_model_trainin.Common.{ℕ, ◌≡◌, Bool, some, arith}
use ikg_studio_model_trainin.Database.{JobType, Database}
use ikg_studio_model_trainin.Scheduler.Reconcile.Benchmark
use ikg_studio_model_trainin.Scheduler.Reconcile.Inference
use ikg_studio_model_trainin.Scheduler.Reconcile.Records.{
  fail_conversion, fail_scan, fail_training_dataset, fail_ingest,
}
use ikg_studio_model_trainin.Scheduler.Reconcile.Kept.{SameJobs}

module _ (now k correlation : ℕ) (db : Database) where
  pub conversion_same : SameJobs db (fail_conversion now k correlation db).0
  unfolding fail_conversion
  conversion_same = (ground arith, ground arith)

  pub scan_same : SameJobs db (fail_scan now k correlation db).0
  unfolding fail_scan
  scan_same = (ground arith, ground arith)

  pub training_dataset_same :
      (t : JobType) → SameJobs db (fail_training_dataset now k correlation t db).0
  unfolding fail_training_dataset
  training_dataset_same t = (ground arith, ground arith)

  pub ingest_same : SameJobs db (fail_ingest now k correlation db).0
  unfolding fail_ingest
  ingest_same = (ground arith, ground arith)

  pub inference_same : SameJobs db (Inference.finalize_inference_on_lost now k correlation db).0
  unfolding Inference.finalize_inference_on_lost
  inference_same = (ground arith, ground arith)

  pub benchmark_same :
      (after : Database) (b : Bool)
      → Benchmark.finalize_benchmark_on_lost now k correlation db ≡ some (after, b)
      → SameJobs db after
  unfolding Benchmark.finalize_benchmark_on_lost
  benchmark_same after b h = (ground arith, ground arith)
