-- ===== src/Scheduler/Workers.antt =====
-- Workers whose heartbeat has stopped (apps/scheduler/src/workers.ts).
use ikg_studio_model_trainin.Common.{
  ℕ, ◌+◌, ◌≡◌, refl, Bool, true, false, not, ◌&&◌, List, Option, none, some, count, update, ltb,
  arith, [], ◌∷◌, ◌≤◌,
}
use ikg_studio_model_trainin.Database.{Worker, WorkerStatus, Database}

abbrev is_offline : WorkerStatus → Bool
is_offline WorkerStatus.offline = true
is_offline _ = false

-- Null compares as unknown, so a worker that never sent a heartbeat is passed over.
abbrev seen_before : ℕ → ℕ → Option ℕ → Bool
seen_before now timeout none = false
seen_before now timeout (some t) = ltb (t + timeout) now

abbrev is_null : Option ℕ → Bool
is_null none = true
is_null (some t) = false

-- The UPDATE's condition.
unfoldable pub is_stale_worker : ℕ → ℕ → Worker → Bool
is_stale_worker now timeout w =
    not (is_offline w.status)
    && is_null w.disabled_at
    && seen_before now timeout w.last_heartbeat_at

unfoldable pub offline : ℕ → Worker → Worker
offline now w = record w { status = WorkerStatus.offline; updated_at = now }

-- `markStaleWorkersOffline`: the number of workers that it changed, too.
unfoldable pub mark_stale_workers_offline : ℕ → ℕ → Database → Database × ℕ
unfolding is_stale_worker offline
mark_stale_workers_offline now timeout db = (
  record db { workers = update (is_stale_worker now timeout) (offline now) db.workers },
  count (is_stale_worker now timeout) db.workers,
)

none_left :
    (now earlier timeout : ℕ) (ws : List Worker)
    → earlier ≤ now
    → count
        (is_stale_worker earlier timeout)
        (update (is_stale_worker now timeout) (offline now) ws)
      ≡ 0
unfolding is_stale_worker offline
none_left now earlier timeout [] h = refl
none_left now earlier timeout (w ∷ ws) h = ground (arith, none_left now earlier timeout ws h)

-- Run again at the same time or with a clock that is behind, the stage finds no worker to change:
-- all those that were due are OFFLINE.
pub mark_offline_settles :
    (now earlier timeout : ℕ) (db : Database)
    → earlier ≤ now
    → (mark_stale_workers_offline earlier timeout (mark_stale_workers_offline now timeout db).0).1
      ≡ 0
unfolding mark_stale_workers_offline
mark_offline_settles now earlier timeout db h = none_left now earlier timeout db.workers h
