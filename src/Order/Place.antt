-- ===== src/Order/Place.antt =====
-- `OrderService.placeOrder` of app/order/service/order.service.ts, with `voidOrderSafe` and
-- `releaseStockSafe`, and `assertRegion` of lib/sharding/regions.ts. What core and the payment provider
-- answer in the course of the call are arguments. The listing cache, which the handler drops and
-- whose errors it swallows, is not part of the state.
pub mod Stock
use quickbite_order_service.Prelude.{
  ℕ, ◌+◌, Bool, true, false, not, ◌||◌, ◌&&◌, Option, none, some, List, [], ◌∷◌, ◌++◌, ◌==◌, any,
  length, map, if◌then◌else◌,
}
use quickbite_order_service.Prelude.Text.{Text, codes, text_eq}
use quickbite_order_service.Order.Enums.{
  OrderStatus, PaymentMethod, cod, online, placed, pending_payment, cancelled, method_eq, status_eq,
}
use quickbite_order_service.Order.Entity.{OrderEntity, OrderItemEntity}
use quickbite_order_service.Order.Status.{cancelled_at}
use quickbite_order_service.Order.Repo.{
  CreateOrderInput, InsertOrderItemInput, create_order, bulk_insert_items, update_order_status,
}
use quickbite_order_service.Order.Access.{ActorContext}
use quickbite_order_service.Order.Core.{
  CoreBranchMetadata, CoreBranchProduct, CoreCustomerAddress, flatten_address,
}
use quickbite_order_service.Order.Drafts.{
  RequestedItem, OrderLineDraft, sum_minor, build_order_line_drafts,
}
use quickbite_order_service.Order.Service.{build_order_placed_payload}
use quickbite_order_service.Payment.Service.{
  ProviderSession, InitOnlinePaymentResult, init_online_payment,
}
use quickbite_order_service.Events.Entity.{order_placed, order_aggregate}
use quickbite_order_service.Events.Outbox.{insert_outbox_event}
use quickbite_order_service.Store.{
  Env, World, Action, Result, ok, err, unknown_region, branch_not_accepting_orders,
  online_payment_not_available, un_authorised, StockCall, reserve, release, order_created,
  branch_room, lift, pure, throw_if, emit, transaction, ◌>>=◌, ◌>>◌,
}

pub record CreateOrderRequest : Type 0 where
  pub branch_id : ℕ
  pub customer_address_id : ℕ
  pub payment_method : PaymentMethod
  pub items : List RequestedItem

-- What the call is told from outside: by core, by the flag of a branch that went offline, and by the
-- payment provider.
pub record Answers : Type 0 where
  pub branch : Result CoreBranchMetadata
  pub is_rejecting : Bool
  pub address : Result CoreCustomerAddress
  pub products : Result (List CoreBranchProduct)
  pub reserved : Result (Unit {0})
  pub session : Result ProviderSession

-- The configuration: the regions, those where online payment is on, and how long a session lives.
-- `toLowerCase` is the runtime's.
pub record PlaceConfig : Type 0 where
  pub regions : List Text
  pub online_regions : List Text
  pub session_ttl_ms : ℕ
  pub to_lower : Text → Text

abbrev pub service_fee_minor : ℕ
service_fee_minor = 1000

abbrev pub contains_text : List Text → Text → Bool
contains_text ts t = any (λ s. text_eq s t) ts

-- `set.has(norm)`, where the set has the lower-case names; an empty text is no region.
unfoldable pub assert_region : PlaceConfig → Text → Result Text
assert_region cfg candidate =
    let norm = cfg.to_lower candidate in
    if text_eq norm [] || not (contains_text (map cfg.to_lower cfg.regions) norm)
    then err unknown_region
    else ok norm

abbrev pub or_else : Option Text → Text → Text
or_else none t = t
or_else (some s) t = s

abbrev pub stock_items : List RequestedItem → List (ℕ × ℕ)
stock_items items = map (λ (i : RequestedItem). (i.product_id, i.quantity)) items

-- A call of core's stock.
abbrev pub call_stock : StockCall → Action (Unit {0})
call_stock call w = (ok tt, record w { stock = w.stock ++ call ∷ [] })

unfoldable pub reserve_stock : Result (Unit {0}) → ℕ → List RequestedItem → Text → Action (Unit {0})
reserve_stock answer branch_id items key =
    call_stock (reserve branch_id (stock_items items) key) >> lift answer

-- The answer to a release is logged and dropped.
unfoldable pub release_stock_safe : ℕ → List RequestedItem → Text → Action (Unit {0})
release_stock_safe branch_id items key = call_stock (release branch_id (stock_items items) key)

-- The error of the transaction is logged and dropped.
abbrev pub swallow : {A : Type 0} → Result A × World → Result (Unit {0}) × World
swallow (r, w) = (ok tt, w)

unfoldable pub void_order_safe : Env → Text → Action (Unit {0})
void_order_safe env public_id w =
    swallow (transaction env (update_order_status env public_id cancelled (some cancelled_at)) w)

-- `catch (err) { …; throw err }`.
abbrev pub on_error : {A : Type 0} → Action (Unit {0}) → Result A × World → Result A × World
on_error cleanup (ok a, w) = (ok a, w)
on_error cleanup (err e, w) = (err e, (cleanup w).1)

abbrev pub first_status : PaymentMethod → OrderStatus
first_status online = pending_payment
first_status cod = placed

unfoldable pub order_input :
    Text
    → Text
    → CoreBranchMetadata
    → CoreCustomerAddress
    → ℕ
    → PaymentMethod
    → ℕ
    → CreateOrderInput
order_input region public_id branch address customer_id payment_method subtotal = record {
  region = region;
  public_id = public_id;
  country_code = branch.region;
  restaurant_id = branch.restaurant_id;
  restaurant_owner_id = branch.restaurant_owner_id;
  branch_id = branch.id;
  customer_id = customer_id;
  customer_address_id = address.id;
  delivery_lat = address.lat;
  delivery_lng = address.lng;
  delivery_address_text_snapshot = flatten_address address;
  branch_lat = branch.lat;
  branch_lng = branch.lng;
  status = first_status payment_method;
  subtotal = subtotal;
  delivery_fee = branch.delivery_fee;
  service_fee = service_fee_minor;
  total = subtotal + branch.delivery_fee + service_fee_minor;
  currency = branch.currency;
  payment_method = payment_method;
}

abbrev pub item_input : Text → ℕ → OrderLineDraft → InsertOrderItemInput
item_input region order_id l = record {
  region = region;
  order_id = order_id;
  product_id = l.product_id;
  quantity = l.quantity;
  unit_price_snapshot = l.unit_price;
  name_snapshot = l.name;
  image_url_snapshot = l.image_url;
  line_total = l.line_total;
}

unfoldable pub insert_placed_event :
    Env → Bool → OrderEntity → List OrderItemEntity → Action (Unit {0})
insert_placed_event env false order items = pure tt
insert_placed_event env true order items = insert_outbox_event env 0 (record {
  aggregate_type = order_aggregate;
  aggregate_id = order.public_id;
  event_type = order_placed;
  payload = build_order_placed_payload order items;
})

-- The body of the transaction.
unfoldable pub insert_order :
    Env → CreateOrderInput → List OrderLineDraft → Action (OrderEntity × List OrderItemEntity)
insert_order env input drafts = do
  order ← create_order env input
  items ← bulk_insert_items env (map (item_input input.region order.id) drafts)
  insert_placed_event env (status_eq order.status placed) order items
  pure (order, items)

-- The payment of an order that was just made. Where it cannot be started, the order is voided and its
-- stock given back. `void_env` is what the voiding transaction finds.
unfoldable pub start_payment :
    Env
    → Env
    → PlaceConfig
    → Result ProviderSession
    → CreateOrderRequest
    → OrderEntity
    → Action (Option InitOnlinePaymentResult)
start_payment env void_env cfg answer body order w =
    if method_eq body.payment_method online
    then on_error
        (void_order_safe void_env order.public_id
          >> release_stock_safe body.branch_id body.items order.public_id)
        ((init_online_payment env cfg.session_ttl_ms answer order >>= λ r. pure (some r)) w)
    else (ok none, w)

unfoldable pub announce_order : PaymentMethod → OrderEntity → ℕ → Action (Unit {0})
announce_order cod order count = emit (branch_room order.branch_id) (order_created order count)
announce_order online order count = pure tt

-- From the reservation on. `pay_env` is what the statements after the transaction find.
unfoldable pub place_drafts :
    Env
    → Env
    → Env
    → PlaceConfig
    → Answers
    → CreateOrderRequest
    → CreateOrderInput
    → List OrderLineDraft
    → Action (OrderEntity × List OrderItemEntity × Option InitOnlinePaymentResult)
place_drafts env pay_env void_env cfg answers body input drafts = do
  reserve_stock answers.reserved body.branch_id body.items input.public_id
  made ← λ w.
      on_error (release_stock_safe body.branch_id body.items input.public_id)
        (transaction env (insert_order env input drafts) w)
  session ← start_payment pay_env void_env cfg answers.session body made.0
  announce_order body.payment_method made.0 (length made.1)
  pure (made.0, made.1, session)

-- The checks of the branch.
abbrev pub accepts_orders : CoreBranchMetadata → Bool
accepts_orders b = b.is_active && b.accept_orders && text_eq b.restaurant_status (codes "active")

unfoldable pub place_order :
    Env
    → Env
    → Env
    → PlaceConfig
    → Answers
    → ActorContext
    → CreateOrderRequest
    → Option Text
    → Action (OrderEntity × List OrderItemEntity × Option InitOnlinePaymentResult)
place_order env pay_env void_env cfg answers actor body region = do
  branch ← lift answers.branch
  throw_if (not (accepts_orders branch)) branch_not_accepting_orders
  throw_if answers.is_rejecting branch_not_accepting_orders
  resolved ← lift (assert_region cfg (or_else region branch.region))
  throw_if (method_eq body.payment_method online && not (contains_text cfg.online_regions resolved))
      online_payment_not_available
  address ← lift answers.address
  throw_if (not (address.user_id == actor.user_id)) un_authorised
  products ← lift answers.products
  drafts ← lift (build_order_line_drafts body.items products)
  place_drafts env pay_env void_env cfg answers body
      (order_input resolved (env.random_uuid 1) branch address actor.user_id body.payment_method
        (sum_minor (map (λ (l : OrderLineDraft). l.line_total) drafts)))
      drafts
