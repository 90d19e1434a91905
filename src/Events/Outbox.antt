-- ===== src/Events/Outbox.antt =====
-- The transactional outbox: lib/events/outbox.repo.ts.
pub mod Bulk
use quickbite_order_service.Prelude.{ℕ, ◌+◌, none, List, [], ◌∷◌, ◌++◌}
use quickbite_order_service.Prelude.Rows.{insert_row}
use quickbite_order_service.Events.Entity.{InsertOutboxInput, OutboxRow}
use quickbite_order_service.Store.{Env, Action, modify_db, pure}

-- The row that the `k`-th insert of a call makes, with a random event id.
unfoldable pub new_outbox_row : Env → ℕ → InsertOutboxInput → OutboxRow
new_outbox_row env k input = record {
  id = env.next_id k;
  aggregate_type = input.aggregate_type;
  aggregate_id = input.aggregate_id;
  event_type = input.event_type;
  event_id = env.random_uuid k;
  payload = input.payload;
  created_at = env.now;
  dispatched_at = none;
  attempts = 0;
  last_error = none;
}

unfoldable pub insert_outbox_event : Env → ℕ → InsertOutboxInput → Action (Unit {0})
insert_outbox_event env k input =
    modify_db
      (λ db. record db { events_outbox = insert_row (new_outbox_row env k input) db.events_outbox })

unfoldable pub new_outbox_rows : Env → ℕ → List InsertOutboxInput → List OutboxRow
new_outbox_rows env k [] = []
new_outbox_rows env k (i ∷ inputs) = new_outbox_row env k i ∷ new_outbox_rows env (k + 1) inputs

-- One statement with all rows, and none without inputs.
unfoldable pub insert_outbox_events : Env → ℕ → List InsertOutboxInput → Action (Unit {0})
insert_outbox_events env k [] = pure tt
insert_outbox_events env k (i ∷ inputs) =
    modify_db
      (λ db. record db { events_outbox = db.events_outbox ++ new_outbox_rows env k (i ∷ inputs) })
