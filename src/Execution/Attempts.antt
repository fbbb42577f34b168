-- ===== src/Execution/Attempts.antt =====
-- The attempts of a training job, as the scheduler's queries read them
-- (apps/scheduler/src/retry.ts).
use ikg_studio_model_trainin.Common.{
  ℕ, ◌≤◌, max, ◌≡◌, refl, Bool, true, false, ◌&&◌, List, [], ◌∷◌, ◌++◌, Option, none, some, All,
  All-append, any, ltb, ◌==◌, if◌then◌else◌, arith, Bool-cases, inl, inr, eq_of_some, ap, sym, ◌∙◌,
}
use ikg_studio_model_trainin.Database.{JobType, job_type_eq, JobExecution}

-- `job_type = 'TRAINING' AND job_id = k`.
abbrev pub of_training : ℕ → JobExecution → Bool
of_training k e = job_type_eq e.job_type JobType.training && e.job_id == k

newer : JobExecution → Option JobExecution → JobExecution
newer x none = x
newer x (some y) = if ltb x.attempt_number y.attempt_number then y else x

-- `ORDER BY attempt_number DESC LIMIT 1`.
unfoldable pub latest_execution : ℕ → List JobExecution → Option JobExecution
unfolding newer
latest_execution k [] = none
latest_execution k (x ∷ xs) =
    let rest = latest_execution k xs in if of_training k x then some (newer x rest) else rest

-- `coalesce(max(attempt_number), 0)`.
unfoldable pub max_attempt : ℕ → List JobExecution → ℕ
max_attempt k [] = 0
max_attempt k (x ∷ xs) =
    let rest = max_attempt k xs in if of_training k x then max x.attempt_number rest else rest

newer-attempt :
    (x : JobExecution) (o : Option JobExecution) (m : ℕ)
    → ((y : JobExecution) → o ≡ some y → y.attempt_number ≡ m)
    → (o ≡ none → m ≡ 0)
    → (newer x o).attempt_number ≡ max x.attempt_number m
unfolding newer
newer-attempt x none m h z = omega (arith, z refl)
newer-attempt x (some y) m h z = ground (arith, h y refl)

mutual
  unfolding latest_execution max_attempt

  -- The newest execution carries the greatest attempt number.
  pub latest-max :
      (k : ℕ) (xs : List JobExecution) (e : JobExecution)
      → latest_execution k xs ≡ some e
      → e.attempt_number ≡ max_attempt k xs
  latest-max k [] e h = cc
  latest-max k (x ∷ xs) e h = elim (Bool-cases (of_training k x)) [
    | inl own ↦ rw own (
        ap JobExecution.attempt_number (sym (eq_of_some (rw own at h)))
        ∙ newer-attempt x (latest_execution k xs) (max_attempt k xs) (latest-max k xs)
            (latest-none k xs))
    | inr other ↦ rw other (latest-max k xs e (rw other at h))
  ]

  pub latest-none :
      (k : ℕ) (xs : List JobExecution) → latest_execution k xs ≡ none → max_attempt k xs ≡ 0
  latest-none k [] h = refl
  latest-none k (x ∷ xs) h = elim (Bool-cases (of_training k x)) [
    | inl own ↦ absurd (cc (rw own at h))
    | inr other ↦ rw other (latest-none k xs (rw other at h))
  ]

-- A job with an execution has a newest one.
pub latest-exists :
    (k : ℕ) (xs : List JobExecution)
    → any (of_training k) xs ≡ true
    → (e : JobExecution) × (latest_execution k xs ≡ some e)
unfolding latest_execution
latest-exists k [] h = absurd (cc h)
latest-exists k (x ∷ xs) h = elim (Bool-cases (of_training k x)) [
  | inl own ↦ (newer x (latest_execution k xs), rw own refl)
  | inr other ↦ let (e, found) = latest-exists k xs (rw other at h) in (e, rw other found)
]

-- No attempt of the job is beyond `m`.
abbrev pub AttemptsWithin : ℕ → ℕ → List JobExecution → Type 0
AttemptsWithin k m = All (λ e. of_training k e ≡ true → e.attempt_number ≤ m)

-- The greatest attempt is the least bound.
pub max-within : (k m : ℕ) (xs : List JobExecution) → max_attempt k xs ≤ m → AttemptsWithin k m xs
unfolding max_attempt
max-within k m [] h = tt
max-within k m (x ∷ xs) h = elim (Bool-cases (of_training k x)) [
  | inl own ↦
      let bound : max x.attempt_number (max_attempt k xs) ≤ m = rw own at h in
      (λ _. omega arith, max-within k m xs (omega arith))
  | inr other ↦ (λ own. absurd (cc (sym other ∙ own)), max-within k m xs (rw other at h))
]

pub within-max : (k m : ℕ) (xs : List JobExecution) → AttemptsWithin k m xs → max_attempt k xs ≤ m
unfolding max_attempt
within-max k m [] h = omega arith
within-max k m (x ∷ xs) (b, h) = elim (Bool-cases (of_training k x)) [
  | inl own ↦ rw own (omega (arith, b own, within-max k m xs h))
  | inr other ↦ rw other (within-max k m xs h)
]

-- A job with no execution has no newest one.
pub latest-missing :
    (k : ℕ) (xs : List JobExecution) → any (of_training k) xs ≡ false → latest_execution k xs ≡ none
unfolding latest_execution
latest-missing k [] h = refl
latest-missing k (x ∷ xs) h = elim (Bool-cases (of_training k x)) [
  | inl own ↦ absurd (cc (rw own at h))
  | inr other ↦ rw other (latest-missing k xs (rw other at h))
]

-- Adding an attempt within the bound keeps the bound.
pub max_attempt-snoc :
    (k m : ℕ) (xs : List JobExecution) (e : JobExecution)
    → max_attempt k xs ≤ m
    → (of_training k e ≡ true → e.attempt_number ≤ m)
    → max_attempt k (xs ++ e ∷ []) ≤ m
max_attempt-snoc k m xs e h b =
    within-max k m (xs ++ e ∷ []) (All-append _ xs (e ∷ []) (max-within k m xs h) (b, tt))
