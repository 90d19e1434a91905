-- ===== src/Order/Response.antt =====
-- What the order routes answer: app/order/dto/order.response.dto.ts. A time stands for its ISO text.
use quickbite_order_service.Prelude.{ℕ, ◌++◌, Option, none, some, List, [], ◌∷◌, map, if◌then◌else◌}
use quickbite_order_service.Prelude.Int.{ℤ}
use quickbite_order_service.Prelude.Text.{Text}
use quickbite_order_service.Order.Enums.{
  OrderStatus, pending_payment, placed, accepted, rejected, ready, assigned, picked, delivered,
  cancelled, PaymentMethod, online, method_eq,
}
use quickbite_order_service.Order.Entity.{OrderEntity, OrderItemEntity}

pub record OrderItemResponse : Type 0 where
  pub product_id : ℕ
  pub name : Text
  pub image_url : Option Text
  pub quantity : ℕ
  pub unit_price : ℕ
  pub line_total : ℕ

abbrev item_response : OrderItemEntity → OrderItemResponse
item_response item = record {
  product_id = item.product_id;
  name = item.name_snapshot;
  image_url = item.image_url_snapshot;
  quantity = item.quantity;
  unit_price = item.unit_price_snapshot;
  line_total = item.line_total;
}

pub record CustomerAddress : Type 0 where
  pub lat : ℤ
  pub lng : ℤ
  pub address_text : Text

-- The answer without the payment, which only placing an order adds.
pub record OrderResponse : Type 0 where
  pub public_id : Text
  pub status : OrderStatus
  pub payment_method : PaymentMethod
  pub branch_id : ℕ
  pub restaurant_id : ℕ
  pub customer_address : CustomerAddress
  pub subtotal : ℕ
  pub delivery_fee : ℕ
  pub service_fee : ℕ
  pub total : ℕ
  pub currency : Text
  pub items : List OrderItemResponse
  pub created_at : ℕ

abbrev order_response : OrderEntity → List OrderItemEntity → OrderResponse
order_response order items = record {
  public_id = order.public_id;
  status = order.status;
  payment_method = order.payment_method;
  branch_id = order.branch_id;
  restaurant_id = order.restaurant_id;
  customer_address = record {
    lat = order.delivery_lat;
    lng = order.delivery_lng;
    address_text = order.delivery_address_text_snapshot;
  };
  subtotal = order.subtotal;
  delivery_fee = order.delivery_fee;
  service_fee = order.service_fee;
  total = order.total;
  currency = order.currency;
  items = map item_response items;
  created_at = order.created_at;
}

pub record OrderSummaryResponse : Type 0 where
  pub public_id : Text
  pub status : OrderStatus
  pub total : ℕ
  pub currency : Text
  pub items_count : ℕ
  pub restaurant_id : ℕ
  pub branch_id : ℕ
  pub created_at : ℕ

abbrev pub summary_response : OrderEntity → ℕ → OrderSummaryResponse
summary_response order items_count = record {
  public_id = order.public_id;
  status = order.status;
  total = order.total;
  currency = order.currency;
  items_count = items_count;
  restaurant_id = order.restaurant_id;
  branch_id = order.branch_id;
  created_at = order.created_at;
}

pub record HistoryEntry : Type 0 where
  pub status : OrderStatus
  pub ts : ℕ

-- `push`: an entry for a time that is there.
abbrev pub pushed : OrderStatus → Option ℕ → List HistoryEntry → List HistoryEntry
pushed status none out = out
pushed status (some ts) out = out ++ record { status = status; ts = ts } ∷ []

unfoldable pub build_history : OrderEntity → List HistoryEntry
build_history order =
    let out_1 =
      if method_eq order.payment_method online
      then pushed placed (some order.created_at) (pushed pending_payment (some order.created_at) [])
      else pushed placed (some order.created_at) [] in
    let out_2 = pushed accepted order.accepted_at out_1 in
    let out_3 = pushed rejected order.rejected_at out_2 in
    let out_4 = pushed ready order.ready_at out_3 in
    let out_5 = pushed assigned order.assigned_at out_4 in
    let out_6 = pushed picked order.picked_at out_5 in
    let out_7 = pushed delivered order.delivered_at out_6 in
    pushed cancelled order.cancelled_at out_7

pub record OrderDetailResponse : Type 0 where
  pub base : OrderResponse
  pub history : List HistoryEntry

abbrev pub detail_response : OrderEntity → List OrderItemEntity → OrderDetailResponse
detail_response order items = record {
  base = order_response order items;
  history = build_history order;
}
