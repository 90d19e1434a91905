-- ===== src/Order/Status/Diagram.antt =====
-- The diagram that the status machine is meant to follow, as an inductive relation with the actor
-- of each edge, and what it implies for the life of an order.
use quickbite_order_service.Prelude.{ℕ, ◌<◌, Bool, true, false, arith}
use quickbite_order_service.Order.Enums.{
  OrderStatus, pending_payment, placed, accepted, rejected, preparing, ready, assigned, picked,
  delivered, cancelled, StatusActor, customer, restaurant_member, agent, system, admin,
}

-- The states in which the kitchen still holds the order.
pub data InKitchen : OrderStatus → Type 0 where
  accepted_in : InKitchen accepted
  preparing_in : InKitchen preparing
  ready_in : InKitchen ready

-- `Edge a s t`: the actor `a` may take an order from `s` to `t`.
pub data Edge : StatusActor → OrderStatus → OrderStatus → Type 0 where
  pay : Edge system pending_payment placed
  abandon : Edge customer pending_payment cancelled
  expire : Edge system pending_payment cancelled
  accept : Edge restaurant_member placed accepted
  reject : Edge restaurant_member placed rejected
  withdraw : Edge customer placed cancelled
  refuse : Edge restaurant_member placed cancelled
  drop : Edge system placed cancelled
  void : Edge admin placed cancelled
  cook : Edge restaurant_member accepted preparing
  serve : Edge restaurant_member preparing ready
  kitchen_cancel : {s : OrderStatus} → InKitchen s → Edge restaurant_member s cancelled
  admin_cancel : {s : OrderStatus} → InKitchen s → Edge admin s cancelled
  claim : Edge system ready assigned
  recall : Edge admin assigned cancelled
  pick : Edge agent assigned picked
  deliver : Edge agent picked delivered

pub ruleset edges = (
  pay, abandon, expire, accept, reject, withdraw, refuse, drop, void, cook, serve, kitchen_cancel,
  admin_cancel, claim, recall, pick, deliver, accepted_in, preparing_in, ready_in,
)

-- Statuses from which nothing leads on.
abbrev pub is_terminal : OrderStatus → Bool
is_terminal rejected = true
is_terminal delivered = true
is_terminal cancelled = true
is_terminal _ = false

-- How far along its life an order is.
abbrev pub rank : OrderStatus → ℕ
rank pending_payment = 0
rank placed = 1
rank accepted = 2
rank preparing = 3
rank ready = 4
rank assigned = 5
rank picked = 6
rank rejected = 7
rank delivered = 7
rank cancelled = 7

pub Edge-rank : {a : StatusActor} {s t : OrderStatus} → Edge a s t → rank s < rank t
Edge-rank pay = omega arith
Edge-rank (kitchen_cancel accepted_in) = omega arith
Edge-rank (kitchen_cancel preparing_in) = omega arith
Edge-rank (kitchen_cancel ready_in) = omega arith
Edge-rank (admin_cancel accepted_in) = omega arith
Edge-rank (admin_cancel preparing_in) = omega arith
Edge-rank (admin_cancel ready_in) = omega arith
Edge-rank _ = omega arith
