-- ===== src/Scheduler/Retry/Dispatch.antt =====
-- The dispatch of a further attempt: its number, its delay, and that it never fails
-- (apps/scheduler/src/retry.ts).
use native.Mathlib.Nat.{one-le-pow, pow-le-pow_right, pow-suc}
use ikg_studio_model_trainin.Common.{
  ℕ, suc, ◌+◌, ◌-◌, ◌*◌, ◌^◌, ◌≤◌, ◌<◌, min, ◌≡◌, refl, ap, sym, subst, ◌∙◌, true, false, [], ◌∷◌,
  ◌++◌, some, any, arith,
}
use ikg_studio_model_trainin.Database.{JobExecution, Database, insert_audit}
use ikg_studio_model_trainin.Execution.{
  of_training, latest_execution, max_attempt, latest-max, latest-exists, insert_execution,
  same_attempt, beyond_max, AttemptsUnique, AttemptsUnique-snoc,
}
use ikg_studio_model_trainin.Scheduler.Retry.{
  NewIds, RetryDispatchOptions, RetryDispatched, backoff, dispatch_of, next_execution, retry_audit,
  insert_event, enqueue_retry, dispatch_after, dispatch_training_retry,
}
use ikg_studio_model_trainin.Scheduler.Retry.Stage.{backoff_cap}

pow_mono : (m n : ℕ) → m ≤ n → 2 ^ m ≤ 2 ^ n
pow_mono m n h = pow-le-pow_right {n = 2} (omega arith) h

scaled : (base p q : ℕ) → p ≤ q → base * p ≤ base * q
scaled base p q h = grind arith

doubled :
    (base cap a : ℕ)
    → 2 ≤ a
    → min (base * 2 ^ (suc a - 2)) cap ≡ min (2 * min (base * 2 ^ (a - 2)) cap) cap
doubled base cap a h =
    let exponent : suc a - 2 ≡ suc (a - 2) = omega arith in rw (exponent, pow-suc) (omega arith)

-- Each attempt after the second doubles the delay, until the cap is reached.
pub backoff_doubles :
    (base cap a : ℕ) → 2 ≤ a → backoff base cap (suc a) ≡ min (2 * backoff base cap a) cap
unfolding backoff
backoff_doubles base cap a late = doubled base cap a late

-- The delay is at least the base and at most the cap, where the base is within the cap, and later
-- attempts wait at least as long as earlier ones.
pub backoff_bounds :
    (base cap a b : ℕ)
    → base ≤ cap
    → a ≤ b
    → (base ≤ backoff base cap a)
      × (backoff base cap b ≤ cap)
      × (backoff base cap a ≤ backoff base cap b)
unfolding backoff
backoff_bounds base cap a b h l =
    let floor = scaled base 1 (2 ^ (a - 2)) (one-le-pow (a - 2) 2 (omega arith)) in
    (
      omega arith,
      omega arith,
      omega
          (arith, scaled base (2 ^ (a - 2)) (2 ^ (b - 2)) (pow_mono (a - 2) (b - 2) (omega arith))),
    )

-- The delay that the stages ask for ends before the new execution could look stale.
pub backoff-lt-stale :
    (base stale attempt : ℕ) → 5 < stale → backoff base (backoff_cap stale) attempt < stale
unfolding backoff
backoff-lt-stale base stale attempt h = omega arith

-- What a dispatch adds: one ASSIGNED execution, numbered after all the job's attempts and with the
-- newest one's configuration, and one event that names it; the jobs are left alone.
pub record Dispatched (now : ℕ) (ids : NewIds) (opts : RetryDispatchOptions)
    (before after : Database) (r : RetryDispatched) : Type 0 where
  pub latest : JobExecution
  pub newest : latest_execution opts.job_id before.job_executions ≡ some latest
  pub numbered :
      (next_execution now ids opts latest).attempt_number
      ≡ max_attempt opts.job_id before.job_executions + 1
  pub added :
      after.job_executions ≡ before.job_executions ++ next_execution now ids opts latest ∷ []
  pub announced :
      after.outbox_events
      ≡ before.outbox_events
        ++ dispatch_of (next_execution now ids opts latest) (
            now
            + backoff opts.backoff_base_s opts.backoff_cap_s
                (next_execution now ids opts latest).attempt_number)
          ∷ []
  pub jobs : after.training_jobs ≡ before.training_jobs
  pub attempt : r.next_attempt ≡ (next_execution now ids opts latest).attempt_number
  pub fresh : any (same_attempt (next_execution now ids opts latest)) before.job_executions ≡ false

-- So the unique constraint holds after it, if it held before.
pub Dispatched-unique :
    {now : ℕ} {ids : NewIds} {opts : RetryDispatchOptions} {before after : Database}
    {r : RetryDispatched}
    → Dispatched now ids opts before after r
    → AttemptsUnique before.job_executions
    → AttemptsUnique after.job_executions
Dispatched-unique d u = subst AttemptsUnique (sym d.added) (AttemptsUnique-snoc _ _ u d.fresh)

pub insert_new :
    (e : JobExecution) (db : Database)
    → any (same_attempt e) db.job_executions ≡ false
    → insert_execution e db ≡ some (record db { job_executions = db.job_executions ++ e ∷ [] })
unfolding insert_execution
insert_new e db h = rw h refl

-- The body's result, once the execution is inserted.
abbrev dispatched : ℕ → RetryDispatchOptions → JobExecution → Database → Database × RetryDispatched
dispatched now opts e db =
    let delay = backoff opts.backoff_base_s opts.backoff_cap_s e.attempt_number in
    (
      insert_audit (retry_audit opts e delay) (
          insert_event (dispatch_of e (now + delay))
            (record db { job_executions = db.job_executions ++ e ∷ [] })),
      record { new_execution_id = e.id; next_attempt = e.attempt_number; backoff_s = delay },
    )

dispatch_at :
    (now : ℕ) (ids : NewIds) (opts : RetryDispatchOptions) (db : Database) (latest : JobExecution)
    → latest_execution opts.job_id db.job_executions ≡ some latest
    → any (same_attempt (next_execution now ids opts latest)) db.job_executions ≡ false
    → dispatch_training_retry now ids opts db
      ≡ some (dispatched now opts (next_execution now ids opts latest) db)
unfolding dispatch_training_retry
dispatch_at now ids opts db latest newest fresh =
    let e = next_execution now ids opts latest in
    ap (dispatch_after now ids opts db) newest
    ∙ ap (enqueue_retry now opts e) (insert_new e db fresh)

-- A job that has an execution is always dispatched: the attempt's number is new to the table, so
-- the unique constraint never throws.
pub dispatch-Dispatched :
    (now : ℕ) (ids : NewIds) (opts : RetryDispatchOptions) (db : Database)
    → any (of_training opts.job_id) db.job_executions ≡ true
    → (after : Database) × (r : RetryDispatched) × (dispatch_training_retry now ids opts db
        ≡ some (after, r))
      × Dispatched now ids opts db after r
unfolding next_execution
dispatch-Dispatched now ids opts db h =
    let (latest, newest) = latest-exists opts.job_id db.job_executions h in
    let e = next_execution now ids opts latest in
    let number : e.attempt_number ≡ max_attempt opts.job_id db.job_executions + 1 =
      ap (λ (n : ℕ). n + 1) (latest-max opts.job_id db.job_executions latest newest) in
    let fresh : any (same_attempt e) db.job_executions ≡ false =
      beyond_max e db.job_executions refl (omega (arith, number)) in
    (
      (dispatched now opts e db).0,
      (dispatched now opts e db).1,
      dispatch_at now ids opts db latest newest fresh,
      record {
        latest = latest;
        newest = newest;
        numbered = number;
        added = refl;
        announced = refl;
        jobs = refl;
        attempt = refl;
        fresh = fresh;
      },
    )
