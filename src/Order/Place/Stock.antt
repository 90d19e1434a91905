-- ===== src/Order/Place/Stock.antt =====
-- Stock that was reserved for an order is kept only for an order that stands; what an order costs; and
-- what is left of an order that fails.
use mathlib.Core.List.{append_assoc}
use quickbite_order_service.Prelude.{
  ◌≡◌, ◌≢◌, ◌⊎◌, Bool, true, false, List, [], ◌∷◌, ◌++◌, map, ap, ◌∙◌,
}
use quickbite_order_service.Prelude.Text.{Text}
use quickbite_order_service.Prelude.Rows.{insert_row}
use quickbite_order_service.Order.Enums.{placed, status_eq}
use quickbite_order_service.Order.Entity.{OrderEntity, OrderItemEntity}
use quickbite_order_service.Order.Repo.{CreateOrderInput, new_order, new_items}
use quickbite_order_service.Order.Drafts.{OrderLineDraft}
use quickbite_order_service.Order.Service.{build_order_placed_payload}
use quickbite_order_service.Order.Place.{CreateOrderRequest, stock_items, item_input}
use quickbite_order_service.Events.Entity.{OutboxRow, order_placed, order_aggregate}
use quickbite_order_service.Events.Outbox.{new_outbox_row}
use quickbite_order_service.Store.{Env, World, Result, ok, err, StockCall, reserve, release}

-- The event of an order that is placed at once.
abbrev pub placed_rows : Env → Bool → OrderEntity → List OrderItemEntity → List OutboxRow
placed_rows env false order items = []
placed_rows env true order items =
    new_outbox_row env 0 (record {
      aggregate_type = order_aggregate;
      aggregate_id = order.public_id;
      event_type = order_placed;
      payload = build_order_placed_payload order items;
    })
    ∷ []

module _ (env : Env) (input : CreateOrderInput) (drafts : List OrderLineDraft) where
  abbrev pub order_made : OrderEntity
  order_made = new_order env input

  abbrev pub items_made : List OrderItemEntity
  items_made = new_items env 1 (map (item_input input.region order_made.id) drafts)

  -- The tables with the order, its lines, and its event where it is placed at once.
  abbrev pub with_order : World → World
  with_order w = record w {
    db = record w.db {
      orders = insert_row order_made w.db.orders;
      order_items = w.db.order_items ++ items_made;
      events_outbox =
          w.db.events_outbox
          ++ placed_rows env (status_eq order_made.status placed) order_made items_made;
    };
  }

abbrev pub reservation : CreateOrderRequest → Text → StockCall
reservation body key = reserve body.branch_id (stock_items body.items) key

abbrev pub give_back : CreateOrderRequest → Text → StockCall
give_back body key = release body.branch_id (stock_items body.items) key

-- What a call that placed an order, or failed to, has asked of core's stock: nothing, where it fails
-- before the reservation or, with the reservation refused by core, the reservation alone; a reservation
-- and its release, where it fails later; and the reservation alone, where it succeeds.
abbrev pub StockIsKept :
    {A : Type 0} → Result (Unit {0}) → CreateOrderRequest → Text → World → Result A × World → Type 0
StockIsKept reserved body key w (ok a, v) = v.stock ≡ w.stock ++ reservation body key ∷ []
StockIsKept reserved body key w (err e, v) =
    (v.stock ≡ w.stock)
    ⊎ ((reserved ≢ ok tt) × (v.stock ≡ w.stock ++ reservation body key ∷ []))
    ⊎ (v.stock ≡ w.stock ++ reservation body key ∷ give_back body key ∷ [])

released :
    (body : CreateOrderRequest) (key : Text) (w u : World)
    → u.stock ≡ w.stock ++ reservation body key ∷ []
    → u.stock ++ give_back body key ∷ [] ≡ w.stock ++ reservation body key ∷ give_back body key ∷ []
released body key w u h =
    ap (λ l. l ++ give_back body key ∷ []) h ∙ append_assoc w.stock (reservation body key ∷ []) _
