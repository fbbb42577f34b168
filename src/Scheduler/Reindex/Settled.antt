-- ===== src/Scheduler/Reindex/Settled.antt =====
-- A dispatched reindex is not dispatched again (apps/scheduler/src/reindex.ts).
use ikg_studio_model_trainin.Common.{
  ℕ, ◌≡◌, refl, ap, sym, inl, inr, Bool, true, false, ◌&&◌, ◌||◌, List, [], ◌∷◌, any, select,
  take_first, length, leb, ◌==◌, ==_iff, ==_refl, arith, Bool-cases, All, eq_iff, ◌⊎◌,
}
use ikg_studio_model_trainin.Database.{DatasetType, DatasetTypeReindex, Database}
use ikg_studio_model_trainin.Scheduler.Reindex.{
  row_is_due, is_due, upsert, dispatch_reindex, dispatch_all, dispatch_periodic_reindexes, has_path,
}

-- The row that an upsert leaves for its own type was just started.
upsert_own :
    (now correlation k interval : ℕ) (rows : List DatasetTypeReindex)
    → row_is_due now interval
        (take_first (λ r. r.dataset_type_id == k) (upsert now k correlation rows))
      ≡ false
unfolding upsert row_is_due
upsert_own now correlation k interval [] =
    rw (==_refl k) (ground (arith, eq_iff "RUNNING" "RUNNING"))
upsert_own now correlation k interval (r ∷ rows) = elim (Bool-cases (r.dataset_type_id == k)) [
  | inl own ↦ rw own (rw own (ground (arith, eq_iff "RUNNING" "RUNNING")))
  | inr other ↦ rw other (rw other (upsert_own now correlation k interval rows))
]

upsert_other :
    (now correlation k j : ℕ) (rows : List DatasetTypeReindex)
    → (k == j) ≡ false
    → take_first (λ r. r.dataset_type_id == j) (upsert now k correlation rows)
      ≡ take_first (λ r. r.dataset_type_id == j) rows
unfolding upsert
upsert_other now correlation k j [] h = rw h refl
upsert_other now correlation k j (r ∷ rows) h =
    ground (arith, upsert_other now correlation k j rows h)

and_false : (b : Bool) → (b && false) ≡ false
and_false true = refl
and_false false = refl

or_true : (a b : Bool) → b ≡ true → (a || b) ≡ true
or_true a b h = ground arith

-- Of every type, either it is not selected or its id is among the selected ones.
abbrev Covered : (DatasetType → Bool) → List DatasetType → DatasetType → Type 0
Covered p us t = (p t ≡ false) ⊎ (any (λ d. d.id == t.id) us ≡ true)

select-Covered :
    (p : DatasetType → Bool) (us ts : List DatasetType)
    → ((j : ℕ) → any (λ d. d.id == j) (select p ts) ≡ true → any (λ d. d.id == j) us ≡ true)
    → All (Covered p us) ts
select-Covered p us [] sub = tt
select-Covered p us (t ∷ ts) sub = elim (Bool-cases (p t)) [
  | inl yes_p ↦ (
    inr (sub t.id (rw yes_p (rw (==_refl t.id) refl))),
    select-Covered p us ts
        (λ j h. sub j (rw yes_p (or_true (t.id == j) (any (λ d. d.id == j) (select p ts)) h))),
  )
  | inr no_p ↦ (inl no_p, select-Covered p us ts (λ j h. sub j (rw no_p h)))
]

none_selected :
    (p q : DatasetType → Bool) (us ts : List DatasetType)
    → ((t : DatasetType) → Covered p us t → q t ≡ false)
    → All (Covered p us) ts
    → select q ts ≡ []
none_selected p q us [] out h = refl
none_selected p q us (t ∷ ts) out (h, hs) = rw (out t h) (none_selected p q us ts out hs)

module _ (now : ℕ) (ids : ℕ → ℕ) (interval : ℕ) where
  -- One dispatch makes its own type not due, and no other type due.
  dispatch_not_due :
      (k : ℕ) (t : DatasetType) (db : Database)
      → (is_due now interval db t ≡ false) ⊎ ((k == t.id) ≡ true)
      → is_due now interval (dispatch_reindex now (ids k) k db) t ≡ false
  unfolding dispatch_reindex is_due
  dispatch_not_due k t db h = elim (Bool-cases (k == t.id)) [
    | inl own ↦
        let same : k ≡ t.id = (==_iff k t.id).0 own in
        rw (sym same) (
          rw (upsert_own now (ids k) k interval db.dataset_type_reindexes)
            (and_false (has_path t.dataset_path)))
    | inr other ↦
        rw (upsert_other now (ids k) k t.id db.dataset_type_reindexes other) (ground arith)
  ]

  all_not_due :
      (ts : List DatasetType) (t : DatasetType) (db : Database)
      → (is_due now interval db t ≡ false) ⊎ (any (λ d. d.id == t.id) ts ≡ true)
      → is_due now interval (dispatch_all now ids ts db) t ≡ false
  unfolding dispatch_all
  all_not_due [] t db h = ground arith
  all_not_due (d ∷ ts) t db h =
      all_not_due ts t (dispatch_reindex now (ids d.id) d.id db) (elim (Bool-cases (d.id == t.id)) [
        | inl own ↦ inl (dispatch_not_due d.id t db (inr own))
        | inr other ↦ elim h [
          | inl idle ↦ inl (dispatch_not_due d.id t db (inl idle))
          | inr listed ↦ inr (rw other at listed)
        ]
      ])

  all-types :
      (ts : List DatasetType) (db : Database)
      → (dispatch_all now ids ts db).dataset_types ≡ db.dataset_types
  unfolding dispatch_all dispatch_reindex
  all-types [] db = refl
  all-types (t ∷ ts) db = all-types ts (dispatch_reindex now (ids t.id) t.id db)

  -- Run again at once, the stage dispatches nothing: each type that was due has a fresh RUNNING row
  -- now, and no other type has become due.
  pub dispatch-settles :
      (db : Database)
      → (dispatch_periodic_reindexes now ids interval
          (dispatch_periodic_reindexes now ids interval db).0).1
        ≡ 0
  unfolding dispatch_periodic_reindexes
  dispatch-settles db = elim (Bool-cases (leb interval 0)) [
    | inl off ↦ rw off refl
    | inr on ↦
        let due = select (is_due now interval db) db.dataset_types in
        rw on (
          rw (all-types due db) (
            ap length (
              none_selected (is_due now interval db)
                (is_due now interval (dispatch_all now ids due db)) due db.dataset_types
                (λ t h. all_not_due due t db h)
                (select-Covered (is_due now interval db) due db.dataset_types (λ j h. h)))))
  ]
