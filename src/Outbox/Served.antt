-- ===== src/Outbox/Served.antt =====
-- How many committed ticks find an event due
-- (apps/api/src/outbox/outbox.publisher.ts).
use ikg_studio_model_trainin.Common.{
  ℕ, zero, suc, ◌+◌, ◌≤◌, ◌≡◌, refl, sym, ap, ◌∙◌, Bool, true, false, Option, List, String, [], ◌∷◌,
  any, ==_refl, arith,
}
use ikg_studio_model_trainin.Outbox.Rows.{OutboxStatus, Message, OutboxRow, Outbox}
use ikg_studio_model_trainin.Outbox.Publisher.{
  max_attempts, is_waiting, is_due, insert_by_age, by_age, first_rows, batch, is_taken, processing,
  attempted, sent, publish_row, publish_all, take_batch, tick, tick_rolled_back,
}
use ikg_studio_model_trainin.Outbox.Attempts.{
  Tried, IsSettled, waiting-few, attempted-IsSettled, attempted-counts,
}

abbrev pub unlocked : ℕ → Bool
unlocked k = false

-- A number of committed ticks of the only publisher, at each of which some event is due, with any
-- ticks that are rolled back between them.
pub data Served : ℕ → Outbox → Outbox → Type 0 where
  unserved : {o : Outbox} → Served 0 o o
  served :
      {n : ℕ} {o p : Outbox} (xadd : ℕ → Option String) (now : ℕ)
      → any (is_due unlocked now) o.rows ≡ true
      → Served n (tick unlocked xadd now o) p
      → Served (suc n) o p
  undone :
      {n : ℕ} {o p : Outbox} (xadd : ℕ → Option String) (now sent_rows : ℕ)
      → Served n (tick_rolled_back unlocked xadd now sent_rows o) p
      → Served n o p

module _ (xadd : ℕ → Option String) (now : ℕ) (r : OutboxRow) (stream : List Message) where
  alone_batch : is_due unlocked now r ≡ true → batch unlocked now (r ∷ []) ≡ r ∷ []
  unfolding batch by_age insert_by_age first_rows
  alone_batch due = rw due refl

  alone_tick :
      is_due unlocked now r ≡ true
      → tick unlocked xadd now (record { rows = r ∷ []; stream = stream }) ≡ record {
        rows = attempted now r.attempt_count (xadd r.id) (processing r) ∷ [];
        stream = sent (xadd r.id) r.message stream;
      }
  unfolding tick take_batch publish_all publish_row is_taken is_due processing
  alone_tick due =
      let waiting : is_waiting r.status ≡ true = ground (arith, due) in
      rw (alone_batch due) (rw (==_refl r.id) (rw waiting (rw (==_refl r.id) refl)))

settled_few : (t : OutboxStatus) (n : ℕ) → Tried t n → n ≤ max_attempts
settled_few OutboxStatus.pending n h = omega (arith, h)
settled_few OutboxStatus.processing n h = absurd h
settled_few OutboxStatus.published n h = h.1
settled_few OutboxStatus.failed n h = omega (arith, h.1)
settled_few OutboxStatus.dead n h = omega (arith, h)

bounded_by :
    (n : ℕ) (o p : Outbox) (r : OutboxRow) (stream : List Message)
    → o ≡ record { rows = r ∷ []; stream = stream }
    → IsSettled r
    → Served n o p
    → n + r.attempt_count ≤ max_attempts
unfolding IsSettled is_due tick_rolled_back
bounded_by zero o p r stream alone settled unserved =
    let few = settled_few r.status r.attempt_count settled in omega (arith, few)
bounded_by (suc n) o p r stream alone settled (served xadd now some_due rest) =
    let due_here : any (is_due unlocked now) (r ∷ []) ≡ true =
      sym (ap (λ (x : Outbox). any (is_due unlocked now) x.rows) alone) ∙ some_due in
    let due : is_due unlocked now r ≡ true = ground (arith, due_here) in
    let few = waiting-few r.status r.attempt_count (ground (arith, due)) settled in
    let next = attempted now r.attempt_count (xadd r.id) (processing r) in
    let counts = attempted-counts now r.attempt_count (xadd r.id) (processing r) in
    let left =
      bounded_by n (tick unlocked xadd now o) p next (sent (xadd r.id) r.message stream)
        (ap (tick unlocked xadd now) alone ∙ alone_tick xadd now r stream due)
        (attempted-IsSettled now r.attempt_count (xadd r.id) (processing r) few) rest in
    omega (arith, left, counts)
bounded_by n o p r stream alone settled (undone xadd now sent_rows rest) =
    bounded_by n (tick_rolled_back unlocked xadd now sent_rows o) p r
      (tick_rolled_back unlocked xadd now sent_rows o).stream
      (ap
        (λ (x : Outbox). record x {
          stream = (tick_rolled_back unlocked xadd now sent_rows o).stream;
        })
        alone)
      settled rest

-- Of an outbox that holds one event, in any state between ticks, at most eight committed ticks of the
-- only publisher, less the attempts that the event has had, find it due, whatever the stream answers
-- and however many ticks are rolled back between them.
pub Served-bounded :
    (n : ℕ) (r : OutboxRow) (stream : List Message) (p : Outbox)
    → IsSettled r
    → Served n (record { rows = r ∷ []; stream = stream }) p
    → n + r.attempt_count ≤ max_attempts
Served-bounded n r stream p settled run =
    bounded_by n (record { rows = r ∷ []; stream = stream }) p r stream refl settled run
