-- ===== src/Scheduler/Reconcile/Benchmark/Finish.antt =====
-- A benchmark run never waits in RUNNING for evaluations that have all ended
-- (apps/scheduler/src/reconcile.ts, `finalizeBenchmarkOnLost`).
use ikg_studio_model_trainin.Common.{
  ℕ, ◌≡◌, ◌≢◌, refl, ap, sym, subst, ◌∙◌, inl, inr, Bool, true, false, ◌&&◌, Option, none, some,
  count, take_first, update, ltb, ◌==◌, ==_refl, arith, ℕ_discrete, Bool-cases,
  take_first-update_hit, take_first-update_inv, count-ne-zero, take_first-holds,
}
use ikg_studio_model_trainin.Database.{
  BenchmarkEvaluation, BenchmarkEvaluationStatus, BenchmarkRun, Database,
}
use ikg_studio_model_trainin.Scheduler.Reconcile.Benchmark.{
  is_completed, is_failed, is_pending, is_running, is_active_evaluation, lost_evaluation,
  count_of_run, set_counts, run_status, finished, is_running_run, fail_evaluation, write_counts,
  finish_run, refinalise, finalize_of, finalize_benchmark_on_lost,
}

abbrev pub run_row : ℕ → Database → Option BenchmarkRun
run_row run db = take_first (λ r. r.id == run) db.benchmark_runs

-- The run's row agrees with its evaluations: the counters count them, and it is RUNNING only while
-- one of them is pending.
pub record Agrees (run : ℕ) (db : Database) (r : BenchmarkRun) : Type 0 where
  pub completed : r.completed_count ≡ count_of_run run is_completed db
  pub failed : r.failed_count ≡ count_of_run run is_failed db
  pub waiting : (is_running r.status && count_of_run run is_pending db == 0) ≡ false

-- Whatever row there is agrees.
abbrev pub AgreesAt : ℕ → Database → Option BenchmarkRun → Type 0
AgreesAt run db none = Unit
AgreesAt run db (some r) = Agrees run db r

module _ (now run : ℕ) (db : Database) where
  written :
      (r : BenchmarkRun)
      → run_row run (write_counts now run db) ≡ some r
      → (r.completed_count ≡ count_of_run run is_completed db)
        × (r.failed_count ≡ count_of_run run is_failed db)
  unfolding write_counts set_counts
  written r h =
      let set = set_counts now (count_of_run run is_completed db) (count_of_run run is_failed db) in
      let (x, found, how) =
        take_first-update_inv (λ b. b.id == run) (λ b. b.id == run) set (λ y _. refl)
          db.benchmark_runs h in
      elim how [
        | inl (missed, same) ↦ absurd (
            cc (
              sym (take_first-holds (λ (b : BenchmarkRun). b.id == run) db.benchmark_runs found)
              ∙ missed))
        | inr (own, same) ↦
            (ap BenchmarkRun.completed_count same, ap BenchmarkRun.failed_count same)
      ]

module _ (now run correlation : ℕ) (db : Database) where
  finish_idle :
      count (is_running_run run) db.benchmark_runs ≡ 0 → finish_run now run correlation db ≡ db
  unfolding finish_run
  finish_idle h = rw h refl

  finish_ends :
      count (is_running_run run) db.benchmark_runs ≢ 0
      → (finish_run now run correlation db).benchmark_runs
        ≡ update
            (is_running_run run)
            (finished now
              (run_status (count_of_run run is_completed db) (count_of_run run is_failed db)))
            db.benchmark_runs
  unfolding finish_run
  finish_ends h =
      let busy : (count (is_running_run run) db.benchmark_runs == 0) ≡ false = ground (arith, h) in
      rw busy refl

status_ends : (completed failed : ℕ) → is_running (run_status completed failed) ≡ false
unfolding run_status
status_ends completed failed = ground arith

running_test :
    (run : ℕ) (r : BenchmarkRun) → (r.id == run) ≡ true → is_running_run run r ≡ is_running r.status
unfolding is_running_run
running_test run r h = rw h refl

-- After the end of a run its row is not RUNNING, and has the counters that it had.
abbrev Ended : ℕ → Database → BenchmarkRun → Type 0
Ended run db r =
    (is_running r.status ≡ false)
    × ((x : BenchmarkRun) × (run_row run db ≡ some x)
        × (r.completed_count ≡ x.completed_count)
        × (r.failed_count ≡ x.failed_count))

finish_row :
    (now run correlation : ℕ) (db : Database) (r : BenchmarkRun)
    → run_row run (finish_run now run correlation db) ≡ some r
    → Ended run db r
unfolding finished is_running_run
finish_row now run correlation db r h =
    let runs = db.benchmark_runs in
    let end_status =
      run_status (count_of_run run is_completed db) (count_of_run run is_failed db) in
    elim (ℕ_discrete (count (is_running_run run) runs) 0) [
      | yes idle ↦
          let row : run_row run db ≡ some r =
            ap (run_row run) (sym (finish_idle now run correlation db idle)) ∙ h in
          let own = take_first-holds (λ (b : BenchmarkRun). b.id == run) runs row in
          (
            elim (Bool-cases (is_running r.status)) [
              | inl runs_on ↦ absurd (
                  count-ne-zero (is_running_run run) (λ b. b.id == run) (λ b. b) runs row
                    (running_test run r own ∙ runs_on) idle)
              | inr ends ↦ ends
            ],
            (r, row, refl, refl),
          )
      | no busy ↦
          let row =
            sym (
              ap (take_first (λ (b : BenchmarkRun). b.id == run))
                (finish_ends now run correlation db busy))
            ∙ h in
          let (x, found, how) =
            take_first-update_inv (is_running_run run) (λ b. b.id == run) (finished now end_status)
              (λ y _. refl) runs row in
          let own = take_first-holds (λ (b : BenchmarkRun). b.id == run) runs found in
          elim how [
            | inl (missed, same) ↦ (
              ap (λ (b : BenchmarkRun). is_running b.status) same
                  ∙ sym (running_test run x own)
                  ∙ missed,
              (x, found, ap BenchmarkRun.completed_count same, ap BenchmarkRun.failed_count same),
            )
            | inr (hit, same) ↦ (
              ap (λ (b : BenchmarkRun). is_running b.status) same
                  ∙ status_ends (count_of_run run is_completed db) (count_of_run run is_failed db),
              (x, found, ap BenchmarkRun.completed_count same, ap BenchmarkRun.failed_count same),
            )
          ]
    ]

-- `refinalise` leaves the evaluations alone.
refinalise_evaluations :
    (now run correlation : ℕ) (db : Database)
    → (refinalise now run correlation db).benchmark_evaluations ≡ db.benchmark_evaluations
unfolding refinalise
refinalise_evaluations now run correlation db = ground arith

refinalise-Agrees :
    (now run correlation : ℕ) (db : Database) (r : BenchmarkRun)
    → ltb 0 (count_of_run run (λ _. true) db) ≡ true
    → run_row run (refinalise now run correlation db) ≡ some r
    → Agrees run db r
unfolding refinalise
refinalise-Agrees now run correlation db r some_here h =
    elim (Bool-cases (count_of_run run is_pending db == 0)) [
      | inl done ↦
          let row : run_row run (finish_run now run correlation (write_counts now run db))
              ≡ some r =
            rw (done, some_here) at h in
          let (ends, (x, found, c, f)) =
            finish_row now run correlation (write_counts now run db) r row in
          let (completed, failed) = written now run db x found in
          record { completed = c ∙ completed; failed = f ∙ failed; waiting = rw ends refl }
      | inr pending ↦
          let row : run_row run (write_counts now run db) ≡ some r = rw pending at h in
          let (completed, failed) = written now run db r row in
          record { completed = completed; failed = failed; waiting = rw pending (ground arith) }
    ]

-- An evaluation that was PENDING, QUEUED or RUNNING has ended FAILED, and its run's row agrees with
-- the run's evaluations.
pub record Finalised (now k correlation : ℕ) (db : Database) (e : BenchmarkEvaluation)
    : Type 0 where
  pub after : Database
  pub result : finalize_benchmark_on_lost now k correlation db ≡ some (after, true)
  pub evaluation :
      take_first (λ x. x.id == k) after.benchmark_evaluations ≡ some (lost_evaluation now e)
  pub status : (lost_evaluation now e).status ≡ BenchmarkEvaluationStatus.failed
  pub agrees : AgreesAt e.benchmark_run_id after (run_row e.benchmark_run_id after)

AgreesAt-row :
    (run : ℕ) (db : Database) (o : Option BenchmarkRun)
    → ((r : BenchmarkRun) → o ≡ some r → Agrees run db r)
    → AgreesAt run db o
AgreesAt-row run db none h = tt
AgreesAt-row run db (some r) h = h r refl

-- The same facts, read off the evaluations of another database.
Agrees-with :
    (run : ℕ) (a b : Database) (r : BenchmarkRun)
    → b.benchmark_evaluations ≡ a.benchmark_evaluations
    → Agrees run a r
    → Agrees run b r
Agrees-with run a b r same h =
    let by = λ (test : BenchmarkEvaluationStatus → Bool).
      sym (ap (count (λ e. e.benchmark_run_id == run && test e.status)) same) in
    record {
      completed = h.completed ∙ by is_completed;
      failed = h.failed ∙ by is_failed;
      waiting = subst (λ n. (is_running r.status && n == 0) ≡ false) (by is_pending) h.waiting;
    }

-- The lost evaluation of a live benchmark run is failed, its run's counters are recomputed, and
-- the run stays RUNNING only while another evaluation of it is pending. The transaction's part
-- never throws.
pub finalize_benchmark-Finalised :
    (now k correlation : ℕ) (db : Database) (e : BenchmarkEvaluation)
    → take_first (λ x. x.id == k) db.benchmark_evaluations ≡ some e
    → is_active_evaluation k e ≡ true
    → Finalised now k correlation db e
unfolding finalize_benchmark_on_lost fail_evaluation lost_evaluation
finalize_benchmark-Finalised now k correlation db e found active =
    let run = e.benchmark_run_id in
    let evaluations = db.benchmark_evaluations in
    let mid = fail_evaluation now k run correlation db in
    let after = refinalise now run correlation mid in
    let there =
      count-ne-zero (is_active_evaluation k) (λ x. x.id == k) (λ x. x) evaluations found active in
    let busy : (count (is_active_evaluation k) evaluations == 0) ≡ false = ground (arith, there) in
    let failed_row : take_first (λ (x : BenchmarkEvaluation). x.id == k) mid.benchmark_evaluations
        ≡ some (lost_evaluation now e) =
      take_first-update_hit (is_active_evaluation k) (λ x. x.id == k) (lost_evaluation now)
        (λ y _. refl) evaluations found active in
    let some_here =
      count-ne-zero (λ x. x.benchmark_run_id == run && true) (λ x. x.id == k) (λ x. x)
        mid.benchmark_evaluations failed_row (ground (arith, ==_refl run)) in
    let same = refinalise_evaluations now run correlation mid in
    record {
      after = after;
      result = rw busy (ap (finalize_of now k correlation db) found);
      evaluation = ap (take_first (λ (x : BenchmarkEvaluation). x.id == k)) same ∙ failed_row;
      status = refl;
      agrees = AgreesAt-row run after (run_row run after) (λ r row_found.
          Agrees-with run mid after r same
            (refinalise-Agrees now run correlation mid r (ground (arith, some_here)) row_found));
    }
