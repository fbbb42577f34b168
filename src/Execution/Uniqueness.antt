-- ===== src/Execution/Uniqueness.antt =====
-- The unique constraint on (job_type, job_id, attempt_number)
-- (database/migrations/001_initial_schema.sql, `uq_job_execution_type_id_attempt`).
use ikg_studio_model_trainin.Common.{
  ℕ, ◌≤◌, ◌<◌, ◌≡◌, refl, Bool, true, false, ◌&&◌, List, [], ◌∷◌, ◌++◌, Option, none, some, any,
  update, ◌==◌, if◌then◌else◌, arith, Bool-cases, inl, inr, ◌∙◌,
}
use ikg_studio_model_trainin.Database.{JobType, job_type_eq, job_type_index, JobExecution, Database}
use ikg_studio_model_trainin.Execution.Attempts.{max_attempt, AttemptsWithin, max-within}

-- The two rows agree on the columns of the constraint.
abbrev pub same_attempt : JobExecution → JobExecution → Bool
same_attempt a b =
    job_type_eq a.job_type b.job_type
    && a.job_id == b.job_id
    && a.attempt_number == b.attempt_number

-- `INSERT INTO job_executions`; none is the constraint's violation, which throws.
unfoldable pub insert_execution : JobExecution → Database → Option Database
insert_execution e db =
    if any (same_attempt e) db.job_executions
    then none
    else some (record db { job_executions = db.job_executions ++ e ∷ [] })

-- The table obeys the constraint.
abbrev pub AttemptsUnique : List JobExecution → Type 0
AttemptsUnique [] = Unit
AttemptsUnique (x ∷ xs) = (any (same_attempt x) xs ≡ false) × AttemptsUnique xs

-- Two rows apart, over the numbers of their columns: `i` and `j` the job types, `a` and `b` the
-- jobs, `p` and `q` the attempts.
apart :
    (i j a b m p q : ℕ)
    → (i == 0) ≡ true
    → m < p
    → ((j == 0 && b == a) ≡ true → q ≤ m)
    → (i == j && a == b && p == q) ≡ false
apart i j a b m p q t h w = ground arith

beyond_within :
    (e : JobExecution) (m : ℕ) (xs : List JobExecution)
    → job_type_eq e.job_type JobType.training ≡ true
    → m < e.attempt_number
    → AttemptsWithin e.job_id m xs
    → any (same_attempt e) xs ≡ false
beyond_within e m [] t h w = refl
beyond_within e m (x ∷ xs) t h (b, w) =
    rw
      (apart (job_type_index e.job_type) (job_type_index x.job_type) e.job_id x.job_id m
        e.attempt_number x.attempt_number t h b)
      (beyond_within e m xs t h w)

-- An attempt beyond the greatest one of its training job is new to the table.
pub beyond_max :
    (e : JobExecution) (xs : List JobExecution)
    → job_type_eq e.job_type JobType.training ≡ true
    → max_attempt e.job_id xs < e.attempt_number
    → any (same_attempt e) xs ≡ false
beyond_max e xs t h =
    beyond_within e (max_attempt e.job_id xs) xs t h
      (max-within e.job_id (max_attempt e.job_id xs) xs (omega arith))

swapped : (i j a b p q : ℕ) → (i == j && a == b && p == q) ≡ (j == i && b == a && q == p)
swapped i j a b p q = ground arith

snoc_apart :
    (x e : JobExecution) (xs : List JobExecution)
    → any (same_attempt x) xs ≡ false
    → same_attempt x e ≡ false
    → any (same_attempt x) (xs ++ e ∷ []) ≡ false
snoc_apart x e [] h a = rw a refl
snoc_apart x e (y ∷ xs) h a = elim (Bool-cases (same_attempt x y)) [
  | inl same ↦ absurd (cc (rw same at h))
  | inr other ↦ rw other (snoc_apart x e xs (rw other at h) a)
]

-- Inserting a row whose attempt is new keeps the constraint.
pub AttemptsUnique-snoc :
    (e : JobExecution) (xs : List JobExecution)
    → AttemptsUnique xs
    → any (same_attempt e) xs ≡ false
    → AttemptsUnique (xs ++ e ∷ [])
AttemptsUnique-snoc e [] u h = (refl, tt)
AttemptsUnique-snoc e (x ∷ xs) (a, u) h = elim (Bool-cases (same_attempt e x)) [
  | inl same ↦ absurd (cc (rw same at h))
  | inr other ↦ (
    snoc_apart x e xs a (
        swapped (job_type_index x.job_type) (job_type_index e.job_type) x.job_id e.job_id
          x.attempt_number e.attempt_number
        ∙ other),
    AttemptsUnique-snoc e xs u (rw other at h),
  )
]

-- The update leaves the columns of the constraint alone.
abbrev pub KeepsKey : (JobExecution → JobExecution) → Type 0
KeepsKey f =
    (e : JobExecution)
    → ((f e).job_type ≡ e.job_type)
      × ((f e).job_id ≡ e.job_id)
      × ((f e).attempt_number ≡ e.attempt_number)

module _ (p : JobExecution → Bool) (f : JobExecution → JobExecution) (keeps : KeepsKey f) where
  same_attempt-update :
      (a x : JobExecution) → same_attempt a (if p x then f x else x) ≡ same_attempt a x
  same_attempt-update a x = elim (Bool-cases (p x)) [
    | inl yes_p ↦ rw (yes_p, (keeps x).0, (keeps x).1, (keeps x).2) refl
    | inr no_p ↦ rw no_p refl
  ]

  any-update :
      (a : JobExecution) (xs : List JobExecution)
      → any (same_attempt a) (update p f xs) ≡ any (same_attempt a) xs
  any-update a [] = refl
  any-update a (x ∷ xs) = rw (same_attempt-update a x, any-update a xs) refl

  own-update :
      (x : JobExecution) (xs : List JobExecution)
      → any (same_attempt (if p x then f x else x)) xs ≡ any (same_attempt x) xs
  own-update x xs = elim (Bool-cases (p x)) [
    | inl yes_p ↦ rw (yes_p, (keeps x).0, (keeps x).1, (keeps x).2) refl
    | inr no_p ↦ rw no_p refl
  ]

  -- An UPDATE of other columns keeps the constraint.
  pub AttemptsUnique-update :
      (xs : List JobExecution) → AttemptsUnique xs → AttemptsUnique (update p f xs)
  AttemptsUnique-update [] u = tt
  AttemptsUnique-update (x ∷ xs) (a, u) =
      (any-update (if p x then f x else x) xs ∙ own-update x xs ∙ a, AttemptsUnique-update xs u)

  -- and it changes no job's greatest attempt.
  pub max_attempt-update :
      (k : ℕ) (xs : List JobExecution) → max_attempt k (update p f xs) ≡ max_attempt k xs
  unfolding max_attempt
  max_attempt-update k [] = refl
  max_attempt-update k (x ∷ xs) = elim (Bool-cases (p x)) [
    | inl yes_p ↦ rw (yes_p, (keeps x).0, (keeps x).1, (keeps x).2, max_attempt-update k xs) refl
    | inr no_p ↦ rw (no_p, max_attempt-update k xs) refl
  ]
