-- ===== src/Scheduler/Reindex.antt =====
-- The periodic refresh of the directory indexes (apps/scheduler/src/reindex.ts).
pub mod Settled
use ikg_studio_model_trainin.Common.{
  ℕ, ◌+◌, Bool, true, false, not, ◌&&◌, ◌||◌, List, [], ◌∷◌, ◌++◌, Option, none, some, String,
  select, take_first, length, ltb, leb, str_eq, ◌==◌, if◌then◌else◌,
}
use ikg_studio_model_trainin.Database.{
  DatasetType, DatasetTypeReindex, Payload, OutboxEvent, Database,
}

-- `STALE_RUNNING_S`.
abbrev pub stale_running_s : ℕ
stale_running_s = 900

abbrev coalesce : Option ℕ → ℕ → ℕ
coalesce none d = d
coalesce (some t) d = t

abbrev pub has_path : Option String → Bool
has_path none = false
has_path (some p) = true

-- Whether the bookkeeping row, if there is one, calls for a reindex.
unfoldable pub row_is_due : ℕ → ℕ → Option DatasetTypeReindex → Bool
row_is_due now interval none = true
row_is_due now interval (some r) =
    (not (str_eq r.status "RUNNING") && ltb (coalesce r.finished_at r.started_at + interval) now)
    || (str_eq r.status "RUNNING"
        && ltb (coalesce r.heartbeat_at r.started_at + stale_running_s) now)

abbrev pub reindex_row : ℕ → Database → Option DatasetTypeReindex
reindex_row k db = take_first (λ r. r.dataset_type_id == k) db.dataset_type_reindexes

-- The WHERE clause over the left join.
unfoldable pub is_due : ℕ → ℕ → Database → DatasetType → Bool
unfolding row_is_due
is_due now interval db t = has_path t.dataset_path && row_is_due now interval (reindex_row t.id db)

-- The row of an INSERT, and what `ON CONFLICT DO UPDATE` makes of an old one.
unfoldable pub started : ℕ → ℕ → ℕ → DatasetTypeReindex
started now k correlation = record {
  dataset_type_id = k;
  status = "RUNNING";
  correlation_id = correlation;
  started_at = now;
  heartbeat_at = none;
  finished_at = none;
  error_message = none;
}

unfoldable pub restarted : ℕ → ℕ → DatasetTypeReindex → DatasetTypeReindex
restarted now correlation r = record r {
  status = "RUNNING";
  correlation_id = correlation;
  started_at = now;
  heartbeat_at = some now;
  finished_at = none;
  error_message = none;
}

unfoldable pub upsert : ℕ → ℕ → ℕ → List DatasetTypeReindex → List DatasetTypeReindex
unfolding started restarted
upsert now k correlation [] = started now k correlation ∷ []
upsert now k correlation (r ∷ rows) =
    if r.dataset_type_id == k
    then restarted now correlation r ∷ rows
    else r ∷ upsert now k correlation rows

-- One due type's transaction.
unfoldable pub dispatch_reindex : ℕ → ℕ → ℕ → Database → Database
unfolding upsert
dispatch_reindex now correlation k db = record db {
  dataset_type_reindexes = upsert now k correlation db.dataset_type_reindexes;
  outbox_events =
      db.outbox_events
      ++ record {
        event_type = "job.dataset_directory_reindex.dispatch";
        aggregate_type_code = "DATASET_TYPE";
        aggregate_id = k;
        payload = Payload.reindex k correlation;
        correlation_id = correlation;
        available_at = now;
      }
        ∷ [];
}

-- `ids` draws the correlation of each type's dispatch.
unfoldable pub dispatch_all : ℕ → (ℕ → ℕ) → List DatasetType → Database → Database
unfolding dispatch_reindex
dispatch_all now ids [] db = db
dispatch_all now ids (t ∷ ts) db = dispatch_all now ids ts (dispatch_reindex now (ids t.id) t.id db)

-- `dispatchPeriodicReindexes`; an interval of 0 turns it off.
unfoldable pub dispatch_periodic_reindexes : ℕ → (ℕ → ℕ) → ℕ → Database → Database × ℕ
unfolding dispatch_all is_due
dispatch_periodic_reindexes now ids interval db =
    let due = select (is_due now interval db) db.dataset_types in
    if leb interval 0 then (db, 0) else (dispatch_all now ids due db, length due)
