-- ===== src/Scheduler/Reconcile/Benchmark.antt =====
-- A benchmark evaluation whose execution was lost: `finalizeBenchmarkOnLost`
-- (apps/scheduler/src/reconcile.ts).
pub mod Finish
use ikg_studio_model_trainin.Common.{
  ℕ, ◌+◌, ◌<◌, ◌≡◌, ◌≢◌, refl, Bool, true, false, ◌&&◌, not, Option, none, some, String, count,
  take_first, update, ltb, ◌==◌, if◌then◌else◌,
}
use ikg_studio_model_trainin.Json.{text, number, field, end}
use ikg_studio_model_trainin.Database.{
  BenchmarkEvaluation, BenchmarkEvaluationStatus, BenchmarkRun, BenchmarkRunStatus, AuditResult,
  Database, Tx, insert_audit,
}
use ikg_studio_model_trainin.Scheduler.Entries.{scheduler_entry, lost_code}

-- PENDING, QUEUED or RUNNING.
abbrev pub is_active : BenchmarkEvaluationStatus → Bool
is_active BenchmarkEvaluationStatus.pending = true
is_active BenchmarkEvaluationStatus.queued = true
is_active BenchmarkEvaluationStatus.running = true
is_active _ = false

abbrev pub is_completed : BenchmarkEvaluationStatus → Bool
is_completed BenchmarkEvaluationStatus.completed = true
is_completed _ = false

abbrev pub is_failed : BenchmarkEvaluationStatus → Bool
is_failed BenchmarkEvaluationStatus.failed = true
is_failed _ = false

-- Not COMPLETED, FAILED or CANCELLED.
abbrev pub is_pending : BenchmarkEvaluationStatus → Bool
is_pending BenchmarkEvaluationStatus.completed = false
is_pending BenchmarkEvaluationStatus.failed = false
is_pending BenchmarkEvaluationStatus.cancelled = false
is_pending _ = true

abbrev pub is_running : BenchmarkRunStatus → Bool
is_running BenchmarkRunStatus.running = true
is_running _ = false

unfoldable pub is_active_evaluation : ℕ → BenchmarkEvaluation → Bool
is_active_evaluation k e = e.id == k && is_active e.status

unfoldable pub lost_evaluation : ℕ → BenchmarkEvaluation → BenchmarkEvaluation
lost_evaluation now e = record e {
  status = BenchmarkEvaluationStatus.failed;
  finished_at = some now;
  failure_code = lost_code;
  failure_message = some "Execution lost (heartbeat timeout)";
}

-- How many evaluations of a run pass a test of their status.
abbrev pub count_of_run : ℕ → (BenchmarkEvaluationStatus → Bool) → Database → ℕ
count_of_run run test db =
    count (λ e. e.benchmark_run_id == run && test e.status) db.benchmark_evaluations

unfoldable pub set_counts : ℕ → ℕ → ℕ → BenchmarkRun → BenchmarkRun
set_counts now completed failed r = record r {
  completed_count = completed;
  failed_count = failed;
  updated_at = now;
}

-- The status in which a run with no pending evaluation ends.
unfoldable pub run_status : ℕ → ℕ → BenchmarkRunStatus
run_status completed failed =
    if failed == 0
    then BenchmarkRunStatus.completed
    else if ltb 0 completed
    then BenchmarkRunStatus.partially_failed
    else BenchmarkRunStatus.failed

abbrev status_name : ℕ → ℕ → String
status_name completed failed =
    if failed == 0 then "COMPLETED" else if ltb 0 completed then "PARTIALLY_FAILED" else "FAILED"

unfoldable pub finished : ℕ → BenchmarkRunStatus → BenchmarkRun → BenchmarkRun
finished now s r = record r { status = s; finished_at = some now; updated_at = now }

unfoldable pub is_running_run : ℕ → BenchmarkRun → Bool
is_running_run run r = r.id == run && is_running r.status

-- Mark the evaluation and audit it.
unfoldable pub fail_evaluation : ℕ → ℕ → ℕ → ℕ → Database → Database
unfolding is_active_evaluation lost_evaluation scheduler_entry
fail_evaluation now k run correlation db =
    insert_audit
      (scheduler_entry "BENCHMARK_EVALUATION_FAILED" "BENCHMARK_EVALUATION" k AuditResult.failure
        correlation lost_code (field "benchmark_run_id" (number run) end))
      (record db {
        benchmark_evaluations =
            update (is_active_evaluation k) (lost_evaluation now) db.benchmark_evaluations;
      })

unfoldable pub write_counts : ℕ → ℕ → Database → Database
unfolding set_counts
write_counts now run db = record db {
  benchmark_runs =
      update (λ r. r.id == run)
        (set_counts now (count_of_run run is_completed db) (count_of_run run is_failed db))
        db.benchmark_runs;
}

-- The run's end, where it is still RUNNING.
unfoldable pub finish_run : ℕ → ℕ → ℕ → Database → Database
unfolding is_running_run finished run_status scheduler_entry
finish_run now run correlation db =
    let completed = count_of_run run is_completed db in
    let failed = count_of_run run is_failed db in
    let ended = record db {
      benchmark_runs =
          update (is_running_run run) (finished now (run_status completed failed))
            db.benchmark_runs;
    } in
    if count (is_running_run run) db.benchmark_runs == 0
    then db
    else insert_audit
        (scheduler_entry "BENCHMARK_RUN_FINISHED" "BENCHMARK_RUN" run
          (if failed == 0 then AuditResult.success else AuditResult.failure) correlation none
          (field "status" (text (status_name completed failed))
            (field "completed" (number completed) (field "failed" (number failed) end))))
        ended

-- Recompute the counts, and finish the run if nothing is pending.
unfoldable pub refinalise : ℕ → ℕ → ℕ → Database → Database
unfolding write_counts finish_run
refinalise now run correlation db =
    if count_of_run run is_pending db == 0 && ltb 0 (count_of_run run (λ _. true) db)
    then finish_run now run correlation (write_counts now run db)
    else write_counts now run db

finalize_of : ℕ → ℕ → ℕ → Database → Option BenchmarkEvaluation → Option (Database × Bool)
unfolding fail_evaluation refinalise
finalize_of now k correlation db none = none
finalize_of now k correlation db (some e) = some (
  refinalise now e.benchmark_run_id correlation
      (fail_evaluation now k e.benchmark_run_id correlation db),
  true,
)

-- `finalizeBenchmarkOnLost`. The row that is read for its run's id is the one that was updated.
unfoldable pub finalize_benchmark_on_lost : ℕ → ℕ → ℕ → Tx Bool
unfolding is_active_evaluation finalize_of
finalize_benchmark_on_lost now k correlation db =
    if count (is_active_evaluation k) db.benchmark_evaluations == 0
    then some (db, false)
    else finalize_of now k correlation db (take_first (λ e. e.id == k) db.benchmark_evaluations)
