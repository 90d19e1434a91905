-- ===== src/Order/Repo.antt =====
-- The statements on `orders` and `order_items`: app/order/repository/order.repo.ts and
-- order-item.repo.ts. A row is its entity, so that `toEntity` of a row is the row, and of no row it
-- throws a type error.
pub mod Laws
use quickbite_order_service.Prelude.{
  ℕ, suc, ◌+◌, Bool, true, false, ◌&&◌, not, Option, none, some, List, [], ◌∷◌, ◌++◌, ◌==◌, ltb,
  if◌then◌else◌, is_some, map,
}
use quickbite_order_service.Prelude.Int.{ℤ}
use quickbite_order_service.Prelude.Text.{Text, text_eq}
use quickbite_order_service.Prelude.Rows.{
  find_where, select_where, update_where, first_returned, insert_row,
}
use quickbite_order_service.Order.Enums.{
  OrderStatus, PaymentMethod, ready, assigned, picked, status_eq,
}
use quickbite_order_service.Order.Entity.{OrderEntity, OrderItemEntity}
use quickbite_order_service.Order.Status.{
  Stamp, accepted_at, rejected_at, ready_at, assigned_at, picked_at, delivered_at, cancelled_at,
}
use quickbite_order_service.Store.{
  Db, World, Env, Action, Result, ok, err, AppError, type_error, order_not_found, query, modify_db,
  lift, ◌>>=◌, ◌>>◌, or_throw, pure,
}

pub record CreateOrderInput : Type 0 where
  pub region : Text
  pub public_id : Text
  pub country_code : Text
  pub restaurant_id : ℕ
  pub restaurant_owner_id : ℕ
  pub branch_id : ℕ
  pub customer_id : ℕ
  pub customer_address_id : ℕ
  pub delivery_lat : ℤ
  pub delivery_lng : ℤ
  pub delivery_address_text_snapshot : Text
  pub branch_lat : ℤ
  pub branch_lng : ℤ
  pub status : OrderStatus
  pub subtotal : ℕ
  pub delivery_fee : ℕ
  pub service_fee : ℕ
  pub total : ℕ
  pub currency : Text
  pub payment_method : PaymentMethod

pub record InsertOrderItemInput : Type 0 where
  pub region : Text
  pub order_id : ℕ
  pub product_id : ℕ
  pub quantity : ℕ
  pub unit_price_snapshot : ℕ
  pub name_snapshot : Text
  pub image_url_snapshot : Option Text
  pub line_total : ℕ

-- The row that `createOrder` inserts, the columns that the table fills included.
unfoldable pub new_order : Env → CreateOrderInput → OrderEntity
new_order env input = record {
  id = env.next_id 0;
  region = input.region;
  public_id = input.public_id;
  country_code = input.country_code;
  restaurant_id = input.restaurant_id;
  restaurant_owner_id = input.restaurant_owner_id;
  branch_id = input.branch_id;
  customer_id = input.customer_id;
  customer_address_id = input.customer_address_id;
  delivery_lat = input.delivery_lat;
  delivery_lng = input.delivery_lng;
  delivery_address_text_snapshot = input.delivery_address_text_snapshot;
  branch_lat = input.branch_lat;
  branch_lng = input.branch_lng;
  status = input.status;
  subtotal = input.subtotal;
  delivery_fee = input.delivery_fee;
  service_fee = input.service_fee;
  total = input.total;
  commission = 0;
  currency = input.currency;
  payment_method = input.payment_method;
  delivery_agent_id = none;
  created_at = env.now;
  updated_at = env.now;
  accepted_at = none;
  rejected_at = none;
  ready_at = none;
  assigned_at = none;
  picked_at = none;
  delivered_at = none;
  cancelled_at = none;
}

abbrev pub set_orders : List OrderEntity → Db → Db
set_orders rows db = record db { orders = rows }

unfoldable pub create_order : Env → CreateOrderInput → Action OrderEntity
create_order env input = do
  modify_db (λ db. set_orders (insert_row (new_order env input) db.orders) db)
  pure (new_order env input)

-- The rows of one INSERT, with the numbers of the sequence from `k` on.
unfoldable pub new_items : Env → ℕ → List InsertOrderItemInput → List OrderItemEntity
new_items env k [] = []
new_items env k (i ∷ inputs) =
    record {
      id = env.next_id k;
      region = i.region;
      order_id = i.order_id;
      product_id = i.product_id;
      quantity = i.quantity;
      unit_price_snapshot = i.unit_price_snapshot;
      name_snapshot = i.name_snapshot;
      image_url_snapshot = i.image_url_snapshot;
      line_total = i.line_total;
      created_at = env.now;
    }
    ∷ new_items env (k + 1) inputs

unfoldable pub bulk_insert_items : Env → List InsertOrderItemInput → Action (List OrderItemEntity)
unfolding new_items
bulk_insert_items env inputs = do
  modify_db (λ db. record db { order_items = db.order_items ++ new_items env 1 inputs })
  pure (new_items env 1 inputs)

abbrev pub contains_id : List ℕ → ℕ → Bool
contains_id [] n = false
contains_id (m ∷ ms) n = if m == n then true else contains_id ms n

-- `whereIn("order_id", …)`; the table is in the order of the ids.
unfoldable pub find_items_by_order_ids : List ℕ → Action (List OrderItemEntity)
find_items_by_order_ids ids =
    query (λ db. select_where (λ i. contains_id ids i.order_id) db.order_items)

abbrev pub has_public_id : Text → OrderEntity → Bool
has_public_id public_id o = text_eq o.public_id public_id

unfoldable pub find_order_by_public_id : Text → Action (Option OrderEntity)
find_order_by_public_id public_id = query (λ db. find_where (has_public_id public_id) db.orders)

-- The later of two orders, the first of two at one time.
abbrev pub later_order : OrderEntity → Option OrderEntity → Option OrderEntity
later_order o none = some o
later_order o (some p) = if ltb o.created_at p.created_at then some p else some o

abbrev pub latest_of : ℕ → List OrderEntity → Option OrderEntity
latest_of restaurant_id [] = none
latest_of restaurant_id (o ∷ os) =
    let rest = latest_of restaurant_id os in
    if o.restaurant_id == restaurant_id then later_order o rest else rest

-- The owner that the restaurant's latest order names.
unfoldable pub find_owner_id_for_restaurant : ℕ → Action (Option ℕ)
find_owner_id_for_restaurant restaurant_id = query (λ db. elim (latest_of restaurant_id db.orders) [
  | none ↦ none
  | some o ↦ some o.restaurant_owner_id
])

-- `set stampColumn = now()`.
unfoldable pub set_stamp : Option Stamp → ℕ → OrderEntity → OrderEntity
set_stamp none now o = o
set_stamp (some accepted_at) now o = record o { accepted_at = some now }
set_stamp (some rejected_at) now o = record o { rejected_at = some now }
set_stamp (some ready_at) now o = record o { ready_at = some now }
set_stamp (some assigned_at) now o = record o { assigned_at = some now }
set_stamp (some picked_at) now o = record o { picked_at = some now }
set_stamp (some delivered_at) now o = record o { delivered_at = some now }
set_stamp (some cancelled_at) now o = record o { cancelled_at = some now }

unfoldable pub with_status : OrderStatus → Option Stamp → ℕ → OrderEntity → OrderEntity
with_status status stamp now o =
    set_stamp stamp now (record o { status = status; updated_at = now })

abbrev pub or_type_error : {A : Type 0} → Option A → Result A
or_type_error none = err type_error
or_type_error (some a) = ok a

unfoldable pub update_order_status : Env → Text → OrderStatus → Option Stamp → Action OrderEntity
update_order_status env public_id status stamp w =
    let p = has_public_id public_id in
    let f = with_status status stamp env.now in
    (
      or_type_error (first_returned p f w.db.orders),
      record w { db = set_orders (update_where p f w.db.orders) w.db },
    )

unfoldable pub update_order_commission : Env → Text → ℕ → Action (Unit {0})
update_order_commission env public_id commission = modify_db (λ db.
    set_orders
      (update_where (has_public_id public_id)
        (λ o. record o { commission = commission; updated_at = env.now }) db.orders)
      db)

-- `status = 'ready' and delivery_agent_id is null`.
abbrev pub is_claimable : OrderEntity → Bool
is_claimable o = status_eq o.status ready && not (is_some o.delivery_agent_id)

unfoldable pub claimed_by : ℕ → ℕ → OrderEntity → OrderEntity
claimed_by agent_id now o = record o {
  status = assigned;
  delivery_agent_id = some agent_id;
  assigned_at = some now;
  updated_at = now;
}

-- The conditional claim; `none` where no row is still ready and unassigned.
unfoldable pub claim_ready_order_for_agent : Env → Text → ℕ → Action (Option OrderEntity)
claim_ready_order_for_agent env public_id agent_id w =
    let p = λ (o : OrderEntity). has_public_id public_id o && is_claimable o in
    let f = claimed_by agent_id env.now in
    (
      ok (first_returned p f w.db.orders),
      record w { db = set_orders (update_where p f w.db.orders) w.db },
    )

abbrev pub is_held_by : ℕ → OrderStatus → OrderEntity → Bool
is_held_by agent_id status o = elim o.delivery_agent_id [
  | none ↦ false
  | some a ↦ a == agent_id && status_eq o.status status
]

unfoldable pub released : ℕ → OrderEntity → OrderEntity
released now o = record o {
  status = ready;
  delivery_agent_id = none;
  assigned_at = none;
  updated_at = now;
}

-- The orders that are assigned to the agent go back to ready. The statement stands in
-- `releaseAssignedOrderToReady`, and once more in `PresenceService.goOffline`.
unfoldable pub release_assigned_order_to_ready : Env → ℕ → Action (Unit {0})
release_assigned_order_to_ready env agent_id =
    modify_db (λ db.
      set_orders (update_where (is_held_by agent_id assigned) (released env.now) db.orders) db)
