-- ===== src/Tests/Data.antt =====
-- A restaurant, one order of it, and a region's state around them.
use quickbite_order_service.Prelude.{ℕ, ◌+◌, true, false, Option, none, some, List, [], ◌∷◌}
use quickbite_order_service.Prelude.Int.{pos, negsuc}
use quickbite_order_service.Prelude.Text.{Text, codes}
use quickbite_order_service.Order.Enums.{OrderStatus, PaymentMethod}
use quickbite_order_service.Order.Entity.{OrderEntity}
use quickbite_order_service.Order.Access.{ActorContext, restaurant_user, delivery_agent, other_role}
use quickbite_order_service.Finance.Entity.{RestaurantBalanceEntity}
use quickbite_order_service.Store.{Db, Redis, World, Env}

abbrev pub env_1 : Env
env_1 = record {
  now = 5000;
  next_id = λ k. 70 + k;
  random_uuid = λ k. (90 + k) ∷ [];
  is_committed = true;
  is_failing = λ k. false;
}

abbrev pub env_2 : Env
env_2 = record {
  now = 9000;
  next_id = λ k. 170 + k;
  random_uuid = λ k. (190 + k) ∷ [];
  is_committed = true;
  is_failing = λ k. false;
}

abbrev pub order_id_1 : Text
order_id_1 = 1 ∷ []

-- 120 for the food, 30 for the delivery, 10 for the service.
abbrev pub order_in : OrderStatus → PaymentMethod → Option ℕ → OrderEntity
order_in status method agent_id = record {
  id = 1;
  region = codes "eg";
  public_id = order_id_1;
  country_code = codes "EG";
  restaurant_id = 4;
  restaurant_owner_id = 40;
  branch_id = 5;
  customer_id = 6;
  customer_address_id = 7;
  delivery_lat = pos 30;
  delivery_lng = pos 31;
  delivery_address_text_snapshot = codes "Nile";
  branch_lat = pos 32;
  branch_lng = negsuc 2;
  status = status;
  subtotal = 120;
  delivery_fee = 30;
  service_fee = 10;
  total = 160;
  commission = 0;
  currency = codes "EGP";
  payment_method = method;
  delivery_agent_id = agent_id;
  created_at = 1000;
  updated_at = 1000;
  accepted_at = none;
  rejected_at = none;
  ready_at = none;
  assigned_at = none;
  picked_at = none;
  delivered_at = none;
  cancelled_at = none;
}

abbrev pub account_1 : RestaurantBalanceEntity
account_1 = record {
  restaurant_id = 4;
  region = codes "eg";
  currency = codes "EGP";
  balance = pos 500;
  updated_at = 0;
}

abbrev pub db_with : OrderEntity → Db
db_with o = record {
  orders = o ∷ [];
  order_items = [];
  payment_sessions = [];
  transactions = [];
  payment_webhook_events = [];
  restaurant_balances = account_1 ∷ [];
  agent_earnings = [];
  events_outbox = [];
}

-- Agents 8 and 9 are online; 8 and 9 were offered the order where `offered` says so.
abbrev pub redis_with : Option (List ℕ) → Option ℕ → Redis
redis_with offered holder = record {
  offer = λ id. offered;
  claim = λ id. holder;
  attempts = λ id. 0;
  online = λ a. true;
  located = λ a. true;
  busy = λ a. false;
}

abbrev pub world_of : OrderEntity → Option (List ℕ) → Option ℕ → World
world_of o offered holder = record {
  db = db_with o;
  redis = redis_with offered holder;
  sent = [];
  stock = [];
}

abbrev pub owner_actor : ActorContext
owner_actor = record {
  user_id = 40;
  role = restaurant_user;
  restaurant_id = some 4;
  is_owner = true;
  branch_ids = none;
}

abbrev pub agent_actor : ActorContext
agent_actor = record {
  user_id = 8;
  role = delivery_agent;
  restaurant_id = none;
  is_owner = false;
  branch_ids = none;
}

abbrev pub customer_actor : ActorContext
customer_actor = record {
  user_id = 6;
  role = other_role;
  restaurant_id = none;
  is_owner = false;
  branch_ids = none;
}
