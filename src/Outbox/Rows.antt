-- ===== src/Outbox/Rows.antt =====
-- The rows of `outbox_events` with all the columns that the publisher uses, and `enqueue`
-- (apps/api/src/outbox/outbox.service.ts, packages/db/src/index.ts).
use ikg_studio_model_trainin.Common.{ℕ, Option, none, List, String, [], ◌∷◌, ◌++◌}
use ikg_studio_model_trainin.Database.{Payload}

pub data OutboxStatus : Type 0 where
  pending processing published failed dead : OutboxStatus

-- What the stream `events` gets of a row.
pub record Message : Type 0 where
  pub event_type : String
  pub aggregate_type_code : String
  pub aggregate_id : ℕ
  pub payload : Payload
  pub correlation_id : ℕ

pub record OutboxRow : Type 0 where
  pub id : ℕ
  pub message : Message
  pub status : OutboxStatus
  pub available_at : ℕ
  pub attempt_count : ℕ
  pub published_at : Option ℕ
  pub last_error : Option String
  pub created_at : ℕ

-- The table, and the stream in Redis.
pub record Outbox : Type 0 where
  pub rows : List OutboxRow
  pub stream : List Message

-- The row that `enqueue` inserts, with the table's defaults; the id is drawn.
unfoldable pub new_row : ℕ → ℕ → Message → OutboxRow
new_row now id m = record {
  id = id;
  message = m;
  status = OutboxStatus.pending;
  available_at = now;
  attempt_count = 0;
  published_at = none;
  last_error = none;
  created_at = now;
}

-- `enqueue`, once its transaction is committed.
unfoldable pub enqueue : ℕ → ℕ → Message → Outbox → Outbox
unfolding new_row
enqueue now id m o = record o { rows = o.rows ++ new_row now id m ∷ [] }
