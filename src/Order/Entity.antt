-- ===== src/Order/Entity.antt =====
-- The order and its lines: app/order/entity/order.entity.ts and order-item.entity.ts, which are
-- the rows of the tables `orders` and `order_items`. Amounts are minor units. A coordinate is the
-- DECIMAL(10,7) of the table as an integer, in units of 1e-7 degrees. A time is a number of
-- milliseconds.
use quickbite_order_service.Prelude.{ℕ, Option}
use quickbite_order_service.Prelude.Int.{ℤ}
use quickbite_order_service.Prelude.Text.{Text}
use quickbite_order_service.Order.Enums.{OrderStatus, PaymentMethod}

pub record OrderEntity : Type 0 where
  pub id : ℕ
  pub region : Text
  pub public_id : Text
  pub country_code : Text
  pub restaurant_id : ℕ
  pub restaurant_owner_id : ℕ
  pub branch_id : ℕ
  pub customer_id : ℕ
  pub customer_address_id : ℕ
  pub delivery_lat : ℤ
  pub delivery_lng : ℤ
  pub delivery_address_text_snapshot : Text
  pub branch_lat : ℤ
  pub branch_lng : ℤ
  pub status : OrderStatus
  pub subtotal : ℕ
  pub delivery_fee : ℕ
  pub service_fee : ℕ
  pub total : ℕ
  pub commission : ℕ
  pub currency : Text
  pub payment_method : PaymentMethod
  pub delivery_agent_id : Option ℕ
  pub created_at : ℕ
  pub updated_at : ℕ
  pub accepted_at : Option ℕ
  pub rejected_at : Option ℕ
  pub ready_at : Option ℕ
  pub assigned_at : Option ℕ
  pub picked_at : Option ℕ
  pub delivered_at : Option ℕ
  pub cancelled_at : Option ℕ

pub record OrderItemEntity : Type 0 where
  pub id : ℕ
  pub region : Text
  pub order_id : ℕ
  pub product_id : ℕ
  pub quantity : ℕ
  pub unit_price_snapshot : ℕ
  pub name_snapshot : Text
  pub image_url_snapshot : Option Text
  pub line_total : ℕ
  pub created_at : ℕ
