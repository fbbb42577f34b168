-- ===== src/Outbox/Publisher.antt =====
-- One tick of the publisher (apps/api/src/outbox/outbox.publisher.ts).
use ikg_studio_model_trainin.Common.{
  ℕ, zero, suc, ◌+◌, ◌-◌, ◌*◌, ◌^◌, min, Bool, true, false, not, ◌&&◌, Option, none, some, List,
  String, [], ◌∷◌, ◌++◌, any, select, update, leb, ◌==◌, if◌then◌else◌,
}
use ikg_studio_model_trainin.Outbox.Rows.{OutboxStatus, Message, OutboxRow, Outbox}

abbrev pub batch_size : ℕ
batch_size = 10

abbrev pub max_attempts : ℕ
max_attempts = 8

abbrev pub is_waiting : OutboxStatus → Bool
is_waiting OutboxStatus.pending = true
is_waiting OutboxStatus.failed = true
is_waiting _ = false

-- `locked` says which rows another publisher has locked (`SKIP LOCKED`).
unfoldable pub is_due : (ℕ → Bool) → ℕ → OutboxRow → Bool
is_due locked now r = is_waiting r.status && leb r.available_at now && not (locked r.id)

unfoldable pub insert_by_age : OutboxRow → List OutboxRow → List OutboxRow
insert_by_age r [] = r ∷ []
insert_by_age r (x ∷ xs) =
    if leb r.created_at x.created_at then r ∷ x ∷ xs else x ∷ insert_by_age r xs

-- `ORDER BY created_at`.
unfoldable pub by_age : List OutboxRow → List OutboxRow
unfolding insert_by_age
by_age [] = []
by_age (x ∷ xs) = insert_by_age x (by_age xs)

-- `LIMIT`.
unfoldable pub first_rows : ℕ → List OutboxRow → List OutboxRow
first_rows zero rows = []
first_rows (suc n) [] = []
first_rows (suc n) (r ∷ rows) = r ∷ first_rows n rows

unfoldable pub batch : (ℕ → Bool) → ℕ → List OutboxRow → List OutboxRow
unfolding is_due by_age first_rows
batch locked now rows = first_rows batch_size (by_age (select (is_due locked now) rows))

-- `status = 'PROCESSING'` for the batch's rows that still wait.
unfoldable pub is_taken : List OutboxRow → OutboxRow → Bool
is_taken taken r = any (λ t. t.id == r.id) taken && is_waiting r.status

unfoldable pub processing : OutboxRow → OutboxRow
processing r = record r { status = OutboxStatus.processing }

unfoldable pub published : ℕ → ℕ → OutboxRow → OutboxRow
published now attempts r = record r {
  status = OutboxStatus.published;
  published_at = some now;
  attempt_count = attempts + 1;
}

-- The seconds until the next attempt.
unfoldable pub backoff : ℕ → ℕ
backoff next_attempt = min (2 * 2 ^ (next_attempt - 1)) 300

unfoldable pub failed : ℕ → ℕ → String → OutboxRow → OutboxRow
unfolding backoff
failed now attempts message r =
    if leb max_attempts (attempts + 1)
    then record r {
      status = OutboxStatus.dead;
      attempt_count = attempts + 1;
      last_error = some message;
    }
    else record r {
      status = OutboxStatus.failed;
      attempt_count = attempts + 1;
      last_error = some message;
      available_at = now + backoff (attempts + 1);
    }

-- The outcome of `xadd` is none, or its error's message.
unfoldable pub attempted : ℕ → ℕ → Option String → OutboxRow → OutboxRow
unfolding published failed
attempted now attempts none r = published now attempts r
attempted now attempts (some message) r = failed now attempts message r

abbrev pub sent : Option String → Message → List Message → List Message
sent none m stream = stream ++ m ∷ []
sent (some message) m stream = stream

unfoldable pub publish_row : (ℕ → Option String) → ℕ → OutboxRow → Outbox → Outbox
unfolding attempted
publish_row xadd now b o = record {
  rows = update (λ r. r.id == b.id) (attempted now b.attempt_count (xadd b.id)) o.rows;
  stream = sent (xadd b.id) b.message o.stream;
}

unfoldable pub publish_all : (ℕ → Option String) → ℕ → List OutboxRow → Outbox → Outbox
unfolding publish_row
publish_all xadd now [] o = o
publish_all xadd now (b ∷ rest) o = publish_all xadd now rest (publish_row xadd now b o)

unfoldable pub take_batch : List OutboxRow → Outbox → Outbox
unfolding is_taken processing
take_batch taken o = record o { rows = update (is_taken taken) processing o.rows }

-- `tick`, when its transaction is committed.
unfoldable pub tick : (ℕ → Bool) → (ℕ → Option String) → ℕ → Outbox → Outbox
unfolding batch take_batch publish_all
tick locked xadd now o =
    let taken = batch locked now o.rows in publish_all xadd now taken (take_batch taken o)

-- `tick`, when its transaction is rolled back after `n` of the batch's rows were sent: the table is
-- as before, the stream keeps what it got.
unfoldable pub tick_rolled_back : (ℕ → Bool) → (ℕ → Option String) → ℕ → ℕ → Outbox → Outbox
unfolding batch take_batch publish_all first_rows
tick_rolled_back locked xadd now n o =
    let taken = batch locked now o.rows in
    record o { stream = (publish_all xadd now (first_rows n taken) (take_batch taken o)).stream }
