-- ===== src/Events/Outbox/Bulk.antt =====
-- The insert of several events at once, insertOutboxEvents of lib/events/outbox.repo.ts.
use mathlib.Core.List.{append_assoc}
use quickbite_order_service.Prelude.{ℕ, ◌+◌, ◌≡◌, refl, sym, ◌∙◌, ap, List, [], ◌∷◌, ◌++◌}
use quickbite_order_service.Events.Entity.{InsertOutboxInput}
use quickbite_order_service.Events.Outbox.{
  new_outbox_row, new_outbox_rows, insert_outbox_event, insert_outbox_events,
}
use quickbite_order_service.Store.{ok, World, Env, Action, pure, ◌>>◌}

-- One event after the other.
unfoldable insert_each : Env → ℕ → List InsertOutboxInput → Action (Unit {0})
insert_each env k [] = pure tt
insert_each env k (i ∷ inputs) = do insert_outbox_event env k i; insert_each env (k + 1) inputs

-- The insert of several events in one statement leaves what one insert after the other leaves.
insert_outbox_events-each :
    (env : Env) (k : ℕ) (inputs : List InsertOutboxInput) (w : World)
    → insert_outbox_events env k inputs w ≡ insert_each env k inputs w
unfolding insert_outbox_events insert_outbox_event insert_each new_outbox_rows
insert_outbox_events-each env k [] w = refl
insert_outbox_events-each env k (i ∷ []) w = refl
insert_outbox_events-each env k (i ∷ j ∷ inputs) w =
    let db = w.db in
    let first = record db { events_outbox = db.events_outbox ++ new_outbox_row env k i ∷ [] } in
    ap (λ rows. (ok tt, record w { db = record db { events_outbox = rows } }))
      (sym (append_assoc db.events_outbox (new_outbox_row env k i ∷ []) _))
    ∙ insert_outbox_events-each env (k + 1) (j ∷ inputs) (record w { db = first })
