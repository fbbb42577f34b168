-- ===== src/Outbox/Runs.antt =====
-- Any sequence of the outbox's steps, a publisher that stops in its tick included
-- (apps/api/src/outbox).
use mathlib.Core.List.Memᴰ.{Memᴰ}
use ikg_studio_model_trainin.Common.{
  ℕ, ◌≡◌, refl, sym, ◌∙◌, Bool, true, false, Option, List, String, [], ◌∷◌, ◌++◌, All, All-append,
  All-weaken, All-both, All-update_where, All-select_where, ◌==◌, arith,
}
use ikg_studio_model_trainin.Outbox.Rows.{Message, OutboxRow, Outbox, new_row, enqueue}
use ikg_studio_model_trainin.Outbox.Publisher.{
  is_due, first_rows, batch, is_taken, processing, take_batch, tick, tick_rolled_back,
}
use ikg_studio_model_trainin.Outbox.Batch.{batch-All}
use ikg_studio_model_trainin.Outbox.Delivery.{
  is_published, SharesMessage, IsDelivered, shares-update, keyed-update, publish_all-IsDelivered,
  publish_all-grows,
}

module _ (taken : List OutboxRow) (o : Outbox) where
  take_batch-shares :
      (b : OutboxRow) → SharesMessage b o.rows → SharesMessage b (take_batch taken o).rows
  unfolding take_batch processing
  take_batch-shares b = shares-update (is_taken taken) processing (λ r. refl) (λ r. refl) b o.rows

  take_batch-IsDelivered : IsDelivered o → IsDelivered (take_batch taken o)
  unfolding take_batch processing
  take_batch-IsDelivered h = record {
    keyed = keyed-update (is_taken taken) processing (λ r. refl) (λ r. refl) o.rows h.keyed;
    on_stream =
        All-update_where (is_taken taken) processing (λ r hit old done. absurd (cc done))
          (λ r missed old. old) o.rows h.on_stream;
  }

module _ (locked : ℕ → Bool) (xadd : ℕ → Option String) (now : ℕ) (o : Outbox)
    (h : IsDelivered o) where
  batch-shares :
      All
        (λ b. SharesMessage b (take_batch (batch locked now o.rows) o).rows)
        (batch locked now o.rows)
  batch-shares =
      batch-All (λ b. SharesMessage b (take_batch (batch locked now o.rows) o).rows) locked now
        o.rows
        (All-select_where (is_due locked now)
          (λ b due share. take_batch-shares (batch locked now o.rows) o b share) o.rows h.keyed)

  tick-IsDelivered : IsDelivered (tick locked xadd now o)
  unfolding tick
  tick-IsDelivered =
      publish_all-IsDelivered xadd now (batch locked now o.rows)
        (take_batch (batch locked now o.rows) o) batch-shares
        (take_batch-IsDelivered (batch locked now o.rows) o h)

  rolled_back-IsDelivered : (n : ℕ) → IsDelivered (tick_rolled_back locked xadd now n o)
  unfolding tick_rolled_back take_batch
  rolled_back-IsDelivered n = record {
    keyed = h.keyed;
    on_stream =
        All-weaken
          (λ r old done.
            publish_all-grows xadd now (first_rows n (batch locked now o.rows))
              (take_batch (batch locked now o.rows) o) r.message (old done))
          o.rows h.on_stream;
  }

-- A row under an id that no row has.
enqueue-IsDelivered :
    (now id : ℕ) (m : Message) (o : Outbox)
    → All (λ r. (r.id == id) ≡ false) o.rows
    → IsDelivered o
    → IsDelivered (enqueue now id m o)
unfolding enqueue new_row
enqueue-IsDelivered now id m o fresh h = record {
  keyed =
      All-append (λ b. SharesMessage b (o.rows ++ new_row now id m ∷ [])) o.rows
        (new_row now id m ∷ [])
        (All-weaken
          (λ b both.
            All-append (λ r. (r.id == b.id) ≡ true → r.message ≡ b.message) o.rows
              (new_row now id m ∷ []) both.0 (λ own. absurd (ground (arith, both.1, own)), tt))
          o.rows
          (All-both (λ b. SharesMessage b o.rows) (λ b. (b.id == id) ≡ false) o.rows h.keyed fresh))
        (
          All-append (λ r. (r.id == id) ≡ true → r.message ≡ m) o.rows (new_row now id m ∷ [])
              (All-weaken (λ r other own. absurd (cc (sym other ∙ own))) o.rows fresh)
              (λ own. refl, tt),
          tt,
        );
  on_stream =
      All-append (λ r. is_published r.status ≡ true → Memᴰ r.message o.stream) o.rows
        (new_row now id m ∷ []) h.on_stream (λ done. absurd (cc done), tt);
}

-- What happens to the outbox, step by step: an event is enqueued under a new id, a tick is
-- committed, or a tick is rolled back with some of its rows sent.
pub data Reaches : Outbox → Outbox → Type 0 where
  here : {o : Outbox} → Reaches o o
  enqueued :
      {o p : Outbox} (now id : ℕ) (m : Message)
      → Reaches o p
      → All (λ r. (r.id == id) ≡ false) p.rows
      → Reaches o (enqueue now id m p)
  ticked :
      {o p : Outbox} (locked : ℕ → Bool) (xadd : ℕ → Option String) (now : ℕ)
      → Reaches o p
      → Reaches o (tick locked xadd now p)
  rolled_back :
      {o p : Outbox} (locked : ℕ → Bool) (xadd : ℕ → Option String) (now n : ℕ)
      → Reaches o p
      → Reaches o (tick_rolled_back locked xadd now n p)

-- From an outbox whose rows of one id carry one message and whose PUBLISHED messages are on the
-- stream, any sequence of enqueuing under a new id, ticks that are committed and ticks that are
-- rolled back after part of their batch was sent leads to such an outbox: no event is marked
-- PUBLISHED that the stream did not get.
pub Reaches-IsDelivered : (o p : Outbox) → IsDelivered o → Reaches o p → IsDelivered p
Reaches-IsDelivered o p h here = h
Reaches-IsDelivered o p h (enqueued {p = q} now id m before fresh) =
    enqueue-IsDelivered now id m q fresh (Reaches-IsDelivered o q h before)
Reaches-IsDelivered o p h (ticked {p = q} locked xadd now before) =
    tick-IsDelivered locked xadd now q (Reaches-IsDelivered o q h before)
Reaches-IsDelivered o p h (rolled_back {p = q} locked xadd now n before) =
    rolled_back-IsDelivered locked xadd now q (Reaches-IsDelivered o q h before) n
