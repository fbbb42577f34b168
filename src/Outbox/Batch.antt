-- ===== src/Outbox/Batch.antt =====
-- The batch of a tick (apps/api/src/outbox/outbox.publisher.ts).
use ikg_studio_model_trainin.Common.{
  ℕ, zero, suc, inl, inr, Bool, List, [], ◌∷◌, All, select, leb, Bool-cases,
}
use ikg_studio_model_trainin.Outbox.Rows.{OutboxRow}
use ikg_studio_model_trainin.Outbox.Publisher.{
  batch_size, is_due, insert_by_age, by_age, first_rows, batch,
}

-- What holds of every row holds of the batch.
module _ (P : OutboxRow → Type 0) where
  insert_by_age-All :
      (r : OutboxRow) (rows : List OutboxRow) → P r → All P rows → All P (insert_by_age r rows)
  unfolding insert_by_age
  insert_by_age-All r [] h hs = (h, tt)
  insert_by_age-All r (x ∷ rows) h hs = elim (Bool-cases (leb r.created_at x.created_at)) [
    | inl before ↦ rw before (h, hs)
    | inr after ↦ rw after (hs.0, insert_by_age-All r rows h hs.1)
  ]

  by_age-All : (rows : List OutboxRow) → All P rows → All P (by_age rows)
  unfolding by_age
  by_age-All [] h = tt
  by_age-All (x ∷ rows) h = insert_by_age-All x (by_age rows) h.0 (by_age-All rows h.1)

  pub first_rows-All : (n : ℕ) (rows : List OutboxRow) → All P rows → All P (first_rows n rows)
  unfolding first_rows
  first_rows-All zero rows h = tt
  first_rows-All (suc n) [] h = tt
  first_rows-All (suc n) (x ∷ rows) h = (h.0, first_rows-All n rows h.1)

  pub batch-All :
      (locked : ℕ → Bool) (now : ℕ) (rows : List OutboxRow)
      → All P (select (is_due locked now) rows)
      → All P (batch locked now rows)
  unfolding batch
  batch-All locked now rows h =
      first_rows-All batch_size (by_age (select (is_due locked now) rows))
        (by_age-All (select (is_due locked now) rows) h)
