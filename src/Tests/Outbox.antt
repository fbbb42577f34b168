-- ===== src/Tests/Outbox.antt =====
-- The outbox with a concrete event, which the stream refuses at first.
use ikg_studio_model_trainin.Common.{ℕ, ◌+◌, ◌≤◌, refl, [], ◌∷◌, Option, none, some, String, All}
use ikg_studio_model_trainin.Database.{Payload}
use ikg_studio_model_trainin.Outbox.Rows.{OutboxStatus, Message, OutboxRow, Outbox, enqueue}
use ikg_studio_model_trainin.Outbox.Publisher.{max_attempts, is_due, tick, tick_rolled_back}
use ikg_studio_model_trainin.Outbox.Delivery.{IsDelivered}
use ikg_studio_model_trainin.Outbox.Runs.{
  Reaches, here, enqueued, ticked, rolled_back, Reaches-IsDelivered,
}
use ikg_studio_model_trainin.Outbox.Attempts.{IsSettled, Reaches-IsSettled}
use ikg_studio_model_trainin.Outbox.Served.{
  unlocked, Served, unserved, served, undone, Served-bounded,
}

abbrev message : Message
message = record {
  event_type = "user.sessions.revoke";
  aggregate_type_code = "USER";
  aggregate_id = 1;
  payload = Payload.sessions_revoke 1 "USER_DISABLED";
  correlation_id = 7;
}

abbrev empty : Outbox
empty = record { rows = []; stream = [] }

abbrev refuses : ℕ → Option String
refuses k = some "READONLY"

abbrev accepts : ℕ → Option String
accepts k = none

-- Enqueued, refused by the stream, sent by a tick that is rolled back, and sent again.
abbrev last_outbox : Outbox
last_outbox = tick unlocked accepts 107 (
    tick_rolled_back unlocked accepts 105 1
      (tick unlocked refuses 101 (enqueue 100 4 message empty)))

run : Reaches empty last_outbox
run = ticked unlocked accepts 107 (
    rolled_back unlocked accepts 105 1
      (ticked unlocked refuses 101 (enqueued 100 4 message here tt)))

Reaches-IsDelivered_example : IsDelivered last_outbox
Reaches-IsDelivered_example =
    Reaches-IsDelivered empty last_outbox (record { keyed = tt; on_stream = tt }) run

Reaches-IsSettled_example : All IsSettled last_outbox.rows
Reaches-IsSettled_example = Reaches-IsSettled empty last_outbox tt run

abbrev event : OutboxRow
event = record {
  id = 4;
  message = message;
  status = OutboxStatus.pending;
  available_at = 100;
  attempt_count = 0;
  published_at = none;
  last_error = none;
  created_at = 100;
}

abbrev alone : Outbox
alone = record { rows = event ∷ []; stream = [] }

-- A tick is rolled back after it has sent the event, and the next one is committed.
abbrev resent : Outbox
resent = tick_rolled_back unlocked (λ k. none) 100 1 alone

one_tick : Served 1 alone (tick unlocked refuses 101 resent)
unfolding is_due tick_rolled_back
one_tick = undone (λ k. none) 100 1 (served refuses 101 refl unserved)

Served-bounded_example : 1 + event.attempt_count ≤ max_attempts
unfolding IsSettled
Served-bounded_example = Served-bounded 1 event [] (tick unlocked refuses 101 resent) refl one_tick
