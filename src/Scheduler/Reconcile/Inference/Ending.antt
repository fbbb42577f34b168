-- ===== src/Scheduler/Reconcile/Inference/Ending.antt =====
-- An inference run never stays open for datasets that have all ended
-- (apps/scheduler/src/reconcile.ts, `finalizeInferenceOnLost`).
use ikg_studio_model_trainin.Common.{
  ℕ, ◌≡◌, ◌≢◌, refl, ap, sym, subst, ◌∙◌, inl, inr, Bool, true, false, ◌&&◌, Option, none, some,
  count, take_first, update, ltb, ◌==◌, ==_refl, arith, ℕ_discrete, Bool-cases,
  take_first-update_hit, take_first-update_inv, count-ne-zero, take_first-holds, if◌then◌else◌,
}
use ikg_studio_model_trainin.Database.{
  InferenceRunDataset, InferenceRunDatasetStatus, InferenceRun, Database,
}
use ikg_studio_model_trainin.Scheduler.Reconcile.Inference.{
  is_stopping, is_completed, is_failed, is_stopped, is_pending, is_open, is_active_dataset,
  lost_dataset, count_of_run, run_status, finished, is_open_run, end_dataset, write_counts,
  finish_run, refinalise, finalize_of, finalize_inference_on_lost,
}

abbrev pub run_row : ℕ → Database → Option InferenceRun
run_row run db = take_first (λ r. r.id == run) db.inference_runs

-- The run's row agrees with its datasets: the counters count them, and it is RUNNING or STOPPING
-- only while one of them is pending.
pub record Agrees (run : ℕ) (db : Database) (r : InferenceRun) : Type 0 where
  pub completed : r.completed_count ≡ count_of_run run is_completed db
  pub failed : r.failed_count ≡ count_of_run run is_failed db
  pub waiting : (is_open r.status && count_of_run run is_pending db == 0) ≡ false

-- Whatever row there is agrees.
abbrev pub AgreesAt : ℕ → Database → Option InferenceRun → Type 0
AgreesAt run db none = Unit
AgreesAt run db (some r) = Agrees run db r

module _ (now run : ℕ) (db : Database) where
  written :
      (r : InferenceRun)
      → run_row run (write_counts now run db) ≡ some r
      → (r.completed_count ≡ count_of_run run is_completed db)
        × (r.failed_count ≡ count_of_run run is_failed db)
  unfolding write_counts
  written r h =
      let set = λ (b : InferenceRun). record b {
        completed_count = count_of_run run is_completed db;
        failed_count = count_of_run run is_failed db;
        updated_at = now;
      } in
      let (x, found, how) =
        take_first-update_inv (λ b. b.id == run) (λ b. b.id == run) set (λ y _. refl)
          db.inference_runs h in
      elim how [
        | inl (missed, same) ↦ absurd (
            cc (
              sym (take_first-holds (λ (b : InferenceRun). b.id == run) db.inference_runs found)
              ∙ missed))
        | inr (own, same) ↦
            (ap InferenceRun.completed_count same, ap InferenceRun.failed_count same)
      ]

module _ (now run correlation : ℕ) (db : Database) where
  finish_idle :
      count (is_open_run run) db.inference_runs ≡ 0 → finish_run now run correlation db ≡ db
  unfolding finish_run
  finish_idle h = rw h refl

  finish_ends :
      count (is_open_run run) db.inference_runs ≢ 0
      → (finish_run now run correlation db).inference_runs
        ≡ update
            (is_open_run run)
            (finished now
              (count_of_run run is_stopped db)
              (count_of_run run is_completed db)
              (count_of_run run is_failed db))
            db.inference_runs
  unfolding finish_run
  finish_ends h =
      let busy : (count (is_open_run run) db.inference_runs == 0) ≡ false = ground (arith, h) in
      rw busy refl

status_ends : (stopped completed failed : ℕ) → is_open (run_status stopped completed failed) ≡ false
unfolding run_status
status_ends stopped completed failed = ground arith

running_test :
    (run : ℕ) (r : InferenceRun) → (r.id == run) ≡ true → is_open_run run r ≡ is_open r.status
unfolding is_open_run
running_test run r h = rw h refl

-- After the end of a run its row is not open, and has the counters that it had.
abbrev Ended : ℕ → Database → InferenceRun → Type 0
Ended run db r =
    (is_open r.status ≡ false)
    × ((x : InferenceRun) × (run_row run db ≡ some x)
        × (r.completed_count ≡ x.completed_count)
        × (r.failed_count ≡ x.failed_count))

finish_row :
    (now run correlation : ℕ) (db : Database) (r : InferenceRun)
    → run_row run (finish_run now run correlation db) ≡ some r
    → Ended run db r
unfolding finished is_open_run
finish_row now run correlation db r h =
    let runs = db.inference_runs in
    let ended =
      finished now (count_of_run run is_stopped db) (count_of_run run is_completed db)
        (count_of_run run is_failed db) in
    elim (ℕ_discrete (count (is_open_run run) runs) 0) [
      | yes idle ↦
          let row : run_row run db ≡ some r =
            ap (run_row run) (sym (finish_idle now run correlation db idle)) ∙ h in
          let own = take_first-holds (λ (b : InferenceRun). b.id == run) runs row in
          (
            elim (Bool-cases (is_open r.status)) [
              | inl runs_on ↦ absurd (
                  count-ne-zero (is_open_run run) (λ b. b.id == run) (λ b. b) runs row
                    (running_test run r own ∙ runs_on) idle)
              | inr ends ↦ ends
            ],
            (r, row, refl, refl),
          )
      | no busy ↦
          let row =
            sym (
              ap (take_first (λ (b : InferenceRun). b.id == run))
                (finish_ends now run correlation db busy))
            ∙ h in
          let (x, found, how) =
            take_first-update_inv (is_open_run run) (λ b. b.id == run) ended (λ y _. refl) runs
              row in
          let own = take_first-holds (λ (b : InferenceRun). b.id == run) runs found in
          elim how [
            | inl (missed, same) ↦ (
              ap (λ (b : InferenceRun). is_open b.status) same
                  ∙ sym (running_test run x own)
                  ∙ missed,
              (x, found, ap InferenceRun.completed_count same, ap InferenceRun.failed_count same),
            )
            | inr (hit, same) ↦ (
              ap (λ (b : InferenceRun). is_open b.status) same
                  ∙ status_ends (count_of_run run is_stopped db) (count_of_run run is_completed db)
                      (count_of_run run is_failed db),
              (x, found, ap InferenceRun.completed_count same, ap InferenceRun.failed_count same),
            )
          ]
    ]

-- `refinalise` leaves the datasets alone.
refinalise_datasets :
    (now run correlation : ℕ) (db : Database)
    → (refinalise now run correlation db).inference_run_datasets ≡ db.inference_run_datasets
unfolding refinalise
refinalise_datasets now run correlation db = ground arith

refinalise-Agrees :
    (now run correlation : ℕ) (db : Database) (r : InferenceRun)
    → ltb 0 (count_of_run run (λ _. true) db) ≡ true
    → run_row run (refinalise now run correlation db) ≡ some r
    → Agrees run db r
unfolding refinalise
refinalise-Agrees now run correlation db r some_here h =
    elim (Bool-cases (count_of_run run is_pending db == 0)) [
      | inl done ↦
          let row : run_row run (finish_run now run correlation (write_counts now run db))
              ≡ some r =
            rw (done, some_here) at h in
          let (ends, (x, found, c, f)) =
            finish_row now run correlation (write_counts now run db) r row in
          let (completed, failed) = written now run db x found in
          record { completed = c ∙ completed; failed = f ∙ failed; waiting = rw ends refl }
      | inr pending ↦
          let row : run_row run (write_counts now run db) ≡ some r = rw pending at h in
          let (completed, failed) = written now run db r row in
          record { completed = completed; failed = failed; waiting = rw pending (ground arith) }
    ]

lost_dataset_status :
    (now : ℕ) (stopping : Bool) (d : InferenceRunDataset)
    → (lost_dataset now stopping d).status
      ≡ (if stopping then InferenceRunDatasetStatus.stopped else InferenceRunDatasetStatus.failed)
unfolding lost_dataset
lost_dataset_status now true d = refl
lost_dataset_status now false d = refl

-- A dataset of an inference run has ended, STOPPED if it was being stopped and FAILED otherwise,
-- and its run's row agrees with the run's datasets.
pub record Finalised (now k correlation : ℕ) (db : Database) (d : InferenceRunDataset)
    : Type 0 where
  pub after : Database
  pub result : finalize_inference_on_lost now k correlation db ≡ (after, true)
  pub dataset :
      take_first (λ x. x.id == k) after.inference_run_datasets
      ≡ some (lost_dataset now (is_stopping d.status) d)
  pub status : (lost_dataset now (is_stopping d.status) d).status ≡ (
      if is_stopping d.status
      then InferenceRunDatasetStatus.stopped
      else InferenceRunDatasetStatus.failed)
  pub agrees : AgreesAt d.inference_run_id after (run_row d.inference_run_id after)

AgreesAt-row :
    (run : ℕ) (db : Database) (o : Option InferenceRun)
    → ((r : InferenceRun) → o ≡ some r → Agrees run db r)
    → AgreesAt run db o
AgreesAt-row run db none h = tt
AgreesAt-row run db (some r) h = h r refl

-- The same facts, read off the datasets of another database.
Agrees-with :
    (run : ℕ) (a b : Database) (r : InferenceRun)
    → b.inference_run_datasets ≡ a.inference_run_datasets
    → Agrees run a r
    → Agrees run b r
Agrees-with run a b r same h =
    let by = λ (test : InferenceRunDatasetStatus → Bool).
      sym (ap (count (λ e. e.inference_run_id == run && test e.status)) same) in
    record {
      completed = h.completed ∙ by is_completed;
      failed = h.failed ∙ by is_failed;
      waiting = subst (λ n. (is_open r.status && n == 0) ≡ false) (by is_pending) h.waiting;
    }

lost_dataset_keeps :
    (now : ℕ) (stopping : Bool) (d : InferenceRunDataset)
    → ((lost_dataset now stopping d).id ≡ d.id)
      × ((lost_dataset now stopping d).inference_run_id ≡ d.inference_run_id)
unfolding lost_dataset
lost_dataset_keeps now true d = (refl, refl)
lost_dataset_keeps now false d = (refl, refl)

-- The lost dataset of a live inference run is ended, its run's counters are recomputed, and the
-- run stays RUNNING or STOPPING only while another dataset of it is pending.
pub finalize_inference-Finalised :
    (now k correlation : ℕ) (db : Database) (d : InferenceRunDataset)
    → take_first (λ x. x.id == k) db.inference_run_datasets ≡ some d
    → is_active_dataset k d ≡ true
    → Finalised now k correlation db d
unfolding finalize_inference_on_lost end_dataset
finalize_inference-Finalised now k correlation db d found active =
    let run = d.inference_run_id in
    let stopping = is_stopping d.status in
    let datasets = db.inference_run_datasets in
    let mid = end_dataset now stopping k run correlation db in
    let after = refinalise now run correlation mid in
    let there =
      count-ne-zero (is_active_dataset k) (λ x. x.id == k) (λ x. x) datasets found active in
    let busy : (count (is_active_dataset k) datasets == 0) ≡ false = ground (arith, there) in
    let row : take_first (λ (x : InferenceRunDataset). x.id == k) mid.inference_run_datasets
        ≡ some (lost_dataset now stopping d) =
      take_first-update_hit (is_active_dataset k) (λ x. x.id == k) (lost_dataset now stopping)
        (λ y _. ap (λ (n : ℕ). n == k) (lost_dataset_keeps now stopping y).0) datasets found
        active in
    let own : (lost_dataset now stopping d).inference_run_id ≡ run =
      (lost_dataset_keeps now stopping d).1 in
    let some_here =
      count-ne-zero (λ x. x.inference_run_id == run && true) (λ x. x.id == k) (λ x. x)
        mid.inference_run_datasets row (rw own (ground (arith, ==_refl run))) in
    let same = refinalise_datasets now run correlation mid in
    record {
      after = after;
      result = ap (finalize_of now k correlation db) found ∙ rw busy refl;
      dataset = ap (take_first (λ (x : InferenceRunDataset). x.id == k)) same ∙ row;
      status = lost_dataset_status now (is_stopping d.status) d;
      agrees = AgreesAt-row run after (run_row run after) (λ r row_found.
          Agrees-with run mid after r same
            (refinalise-Agrees now run correlation mid r (ground (arith, some_here)) row_found));
    }
