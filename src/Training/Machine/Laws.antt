-- ===== src/Training/Machine/Laws.antt =====
-- What a transition does to the job's row, to the other rows and to the audit log
-- (apps/api/src/training/training-state-machine.ts).
use ikg_studio_model_trainin.Common.{
  ℕ, ◌+◌, ◌≡◌, refl, ap, subst, sym, ◌∙◌, inl, inr, true, false, List, [], ◌∷◌, ◌++◌, Option, none,
  some, any, length, take_first, ◌==◌, ==_iff, ==_refl, if◌then◌else◌, arith, Bool-cases,
  Option-cases, take_first-update, take_first-update_other, take_first-holds,
}
use ikg_studio_model_trainin.Database.{TimeColumn, TrainingJob, Database, AuditLog, set_time}
use ikg_studio_model_trainin.Http.{ok, err}
use ikg_studio_model_trainin.Training.Machine.{
  is_legal, timestamp_for, Assignment, set_timestamp, set_configuration_snapshot,
  set_configuration_hash, set_updated_by_user_id, set_stop_requested_by_user_id,
  set_cancelled_by_user_id, TransitionInput, job_not_found, invalid_transition, assign, assign_all,
  names_column, stamp_column, set_failure, transitioned, apply_transition, guard_transition,
  transition, Failure,
}

-- The row of a job.
abbrev pub job_row : ℕ → Database → Option TrainingJob
job_row k db = take_first (λ j. j.id == k) db.training_jobs

-- What the UPDATE of a transition guarantees of the job's row.
pub record Moved (now : ℕ) (input : TransitionInput) (before after : TrainingJob) : Type 0 where
  pub same_id : after.id ≡ before.id
  pub at_target : after.status ≡ input.to
  pub next_version : after.row_version ≡ before.row_version + 1

assign_keeps :
    (a : Assignment) (j : TrainingJob)
    → ((assign a j).id ≡ j.id)
      × ((assign a j).status ≡ j.status)
      × ((assign a j).row_version ≡ j.row_version)
unfolding assign
assign_keeps (set_timestamp c t) j = (refl, refl, refl)
assign_keeps (set_configuration_snapshot s) j = (refl, refl, refl)
assign_keeps (set_configuration_hash s) j = (refl, refl, refl)
assign_keeps (set_updated_by_user_id u) j = (refl, refl, refl)
assign_keeps (set_stop_requested_by_user_id u) j = (refl, refl, refl)
assign_keeps (set_cancelled_by_user_id u) j = (refl, refl, refl)

assign_all_keeps :
    (more : List Assignment) (j : TrainingJob)
    → ((assign_all more j).id ≡ j.id)
      × ((assign_all more j).status ≡ j.status)
      × ((assign_all more j).row_version ≡ j.row_version)
unfolding assign_all
assign_all_keeps [] j = (refl, refl, refl)
assign_all_keeps (a ∷ more) j =
    let (i, s, v) = assign_keeps a j in
    let (i', s', v') = assign_all_keeps more (assign a j) in (i' ∙ i, s' ∙ s, v' ∙ v)

stamp_keeps :
    (now : ℕ) (more : List Assignment) (c : Option TimeColumn) (j : TrainingJob)
    → ((stamp_column now more c j).id ≡ j.id)
      × ((stamp_column now more c j).status ≡ j.status)
      × ((stamp_column now more c j).row_version ≡ j.row_version)
unfolding stamp_column
stamp_keeps now more none j = (refl, refl, refl)
stamp_keeps now more (some c) j = ground arith

failure_keeps :
    (f : Option Failure) (j : TrainingJob)
    → ((set_failure f j).id ≡ j.id)
      × ((set_failure f j).status ≡ j.status)
      × ((set_failure f j).row_version ≡ j.row_version)
unfolding set_failure
failure_keeps none j = (refl, refl, refl)
failure_keeps (some f) j = (refl, refl, refl)

pub transitioned-Moved :
    (now : ℕ) (input : TransitionInput) (j : TrainingJob)
    → Moved now input j (transitioned now input j)
unfolding transitioned
transitioned-Moved now input j =
    let column = timestamp_for input.to in
    let extra = input.extra_set in
    let based : TrainingJob =
      set_time TimeColumn.updated_at (some now)
        (record j { status = input.to; row_version = j.row_version + 1 }) in
    let (i, s, v) = assign_all_keeps extra based in
    let (i', s', v') = stamp_keeps now extra column (assign_all extra based) in
    let (i'', s'', v'') =
      failure_keeps input.failure (stamp_column now extra column (assign_all extra based)) in
    record { same_id = i'' ∙ i' ∙ i; at_target = s'' ∙ s' ∙ s; next_version = v'' ∙ v' ∙ v }

-- Other jobs' rows are as they were, the job's own row has moved, and one entry is logged.
pub record Applied (now : ℕ) (input : TransitionInput) (before after : Database) : Type 0 where
  pub job : TrainingJob
  pub found : job_row input.job_id before ≡ some job
  pub allowed : is_legal job.status input.to ≡ true
  pub rows :
      (k : ℕ)
      → job_row k after
        ≡ (if k == input.job_id then some (transitioned now input job) else job_row k before)
  pub logged : length after.audit_logs ≡ length before.audit_logs + 1

id_found : (k : ℕ) (db : Database) {j : TrainingJob} → job_row k db ≡ some j → j.id ≡ k
id_found k db {j} h = (==_iff _ _).0 (take_first-holds (λ x. x.id == k) db.training_jobs {x = j} h)

length-snoc : (logs : List AuditLog) (a : AuditLog) → length (logs ++ a ∷ []) ≡ length logs + 1
length-snoc [] a = omega arith
length-snoc (x ∷ logs) a = omega (arith, length-snoc logs a)

-- The job's own row, once the transition is applied.
pub apply-row :
    (now : ℕ) (input : TransitionInput) (db : Database) (j : TrainingJob)
    → job_row input.job_id db ≡ some j
    → job_row input.job_id (apply_transition now input j db) ≡ some (transitioned now input j)
unfolding apply_transition
apply-row now input db j found =
    let own : j.id ≡ input.job_id = id_found input.job_id db found in
    let same = (transitioned-Moved now input j).same_id ∙ own in
    take_first-update (λ x. x.id == input.job_id) (λ _. transitioned now input j)
      (λ x h. (==_iff _ _).1 same) db.training_jobs found

pub apply-Applied :
    (now : ℕ) (input : TransitionInput) (db : Database) (j : TrainingJob)
    → job_row input.job_id db ≡ some j
    → is_legal j.status input.to ≡ true
    → Applied now input db (apply_transition now input j db)
unfolding apply_transition
apply-Applied now input db j found allowed =
    let own : j.id ≡ input.job_id = id_found input.job_id db found in
    let same = (transitioned-Moved now input j).same_id ∙ own in
    record {
      job = j;
      found = found;
      allowed = allowed;
      rows = λ k. elim (Bool-cases (k == input.job_id)) [
        | inl named ↦ rw named (
            subst
              (λ x. job_row x (apply_transition now input j db) ≡ some (transitioned now input j))
              (sym ((==_iff k input.job_id).0 named)) (apply-row now input db j found))
        | inr apart ↦ rw apart (
            take_first-update_other (λ x. x.id == input.job_id) (λ _. transitioned now input j)
              (λ x. x.id == k) (λ x h. (ground arith, ground arith)) db.training_jobs)
      ];
      logged = length-snoc db.audit_logs _;
    }

-- The job's own row afterwards.
pub Applied-moved :
    {now : ℕ} {input : TransitionInput} {before after : Database}
    (a : Applied now input before after)
    → job_row input.job_id after ≡ some (transitioned now input a.job)
Applied-moved {input = input} a = a.rows input.job_id ∙ rw (==_refl input.job_id) refl

-- and the rows of the others.
pub Applied-others :
    {now : ℕ} {input : TransitionInput} {before after : Database}
    → Applied now input before after
    → (k : ℕ) → (k == input.job_id) ≡ false
    → job_row k after ≡ job_row k before
Applied-others a k apart = a.rows k ∙ rw apart refl

pub transition_missing :
    (now : ℕ) (input : TransitionInput) (db : Database)
    → job_row input.job_id db ≡ none
    → transition now input db ≡ err job_not_found
unfolding transition
transition_missing now input db h = ap (guard_transition now input db) h

module _ (now : ℕ) (input : TransitionInput) (db : Database) {j : TrainingJob}
    (found : job_row input.job_id db ≡ some j) where
  pub transition_refused :
      is_legal j.status input.to ≡ false → transition now input db ≡ err invalid_transition
  unfolding transition
  transition_refused h = ap (guard_transition now input db) found ∙ rw h refl

  pub transition_allowed :
      is_legal j.status input.to ≡ true
      → transition now input db ≡ ok (apply_transition now input j db)
  unfolding transition
  transition_allowed h = ap (guard_transition now input db) found ∙ rw h refl

pub ok-injective : {a b : Database} → ok a ≡ ok b → a ≡ b
ok-injective h = cc

-- A transition that succeeds started from a row of the job, whose status may legally go to the
-- target; afterwards that row is the one that the UPDATE describes, every other job's row is
-- unchanged and the audit log has one entry more.
pub transition-Applied :
    (now : ℕ) (input : TransitionInput) (db after : Database)
    → transition now input db ≡ ok after
    → Applied now input db after
transition-Applied now input db after h = elim (Option-cases (job_row input.job_id db)) [
  | inl missing ↦ absurd (cc (transition_missing now input db missing))
  | inr (j, found) ↦ elim (Bool-cases (is_legal j.status input.to)) [
    | inl allowed ↦
        subst (Applied now input db)
          (ok-injective (sym (transition_allowed now input db found allowed) ∙ h))
          (apply-Applied now input db j found allowed)
    | inr refused ↦ absurd (cc (transition_refused now input db found refused))
  ]
]

-- The stamp: the target's own timestamp column is the time of the transition, unless the caller
-- names that column, and every target but SCHEDULED and BLOCKED has such a column.
assign_all-time :
    (extra : List Assignment) (j : TrainingJob) (c : TimeColumn)
    → any (names_column c) extra ≡ false
    → (assign_all extra j).time c ≡ j.time c
unfolding assign_all assign names_column
assign_all-time [] j c h = refl
assign_all-time (set_timestamp d t ∷ more) j c h =
    assign_all-time more (assign (set_timestamp d t) j) c (ground arith) ∙ ground arith
assign_all-time (set_configuration_snapshot s ∷ more) j c h = assign_all-time more _ c h
assign_all-time (set_configuration_hash s ∷ more) j c h = assign_all-time more _ c h
assign_all-time (set_updated_by_user_id u ∷ more) j c h = assign_all-time more _ c h
assign_all-time (set_stop_requested_by_user_id u ∷ more) j c h = assign_all-time more _ c h
assign_all-time (set_cancelled_by_user_id u ∷ more) j c h = assign_all-time more _ c h

failure-time : (f : Option Failure) (j : TrainingJob) → (set_failure f j).time ≡ j.time
unfolding set_failure
failure-time none j = refl
failure-time (some f) j = refl

stamp-time :
    (now : ℕ) (extra : List Assignment) (c : TimeColumn) (j : TrainingJob)
    → any (names_column c) extra ≡ false
    → (stamp_column now extra (some c) j).time c ≡ some now
unfolding stamp_column
stamp-time now extra c j h = rw h (ground arith)

-- The column that belongs to the target status holds the time of the transition, where the caller
-- does not set that column itself.
pub transitioned-time :
    (now : ℕ) (input : TransitionInput) (j : TrainingJob) (c : TimeColumn)
    → timestamp_for input.to ≡ some c
    → any (names_column c) input.extra_set ≡ false
    → (transitioned now input j).time c ≡ some now
unfolding transitioned
transitioned-time now input j c column h =
    let extra = input.extra_set in
    let based : TrainingJob =
      set_time TimeColumn.updated_at (some now)
        (record j { status = input.to; row_version = j.row_version + 1 }) in
    ap (λ t. t c)
      (failure-time input.failure
        (stamp_column now extra (timestamp_for input.to) (assign_all extra based)))
    ∙ ap (λ o. (stamp_column now extra o (assign_all extra based)).time c) column
    ∙ stamp-time now extra c (assign_all extra based) h
