-- ===== src/Agent/Service/PickUp.antt =====
-- When an agent can pick an order up, and what becomes of it.
use quickbite_order_service.Prelude.{ℕ, some, [], ◌∷◌, ◌++◌}
use quickbite_order_service.Prelude.Text.{Text}
use quickbite_order_service.Prelude.Rows.{update_where}
use quickbite_order_service.Order.Enums.{picked}
use quickbite_order_service.Order.Entity.{OrderEntity}
use quickbite_order_service.Order.Status.{picked_at}
use quickbite_order_service.Order.Repo.{has_public_id, with_status}
use quickbite_order_service.Store.{Env, World, customer_room, branch_room, status_changed}

module _ (env : Env) (public_id : Text) (agent_id : ℕ) (w : World) where
  abbrev pub taken : OrderEntity → OrderEntity
  taken order = with_status picked (some picked_at) env.now order

  -- The tables after a pick-up, and the world with the customer and the branch told.
  abbrev pub with_taken : World
  with_taken = record w {
    db = record w.db {
      orders =
          update_where (has_public_id public_id) (with_status picked (some picked_at) env.now)
            w.db.orders;
    };
  }

  abbrev pub after_pick_up : OrderEntity → World
  after_pick_up order = record with_taken {
    sent =
        (w.sent ++ (customer_room (taken order).customer_id, status_changed (taken order)) ∷ [])
        ++ (branch_room (taken order).branch_id, status_changed (taken order)) ∷ [];
  }
