-- ===== src/Events/Entity.antt =====
-- Outbound events: the types of lib/events/event-types.ts, the payloads that the services build, and
-- the rows of `events_outbox`.
use quickbite_order_service.Prelude.{ℕ, Option, List}
use quickbite_order_service.Prelude.Text.{Text}
use quickbite_order_service.Order.Enums.{OrderStatus, PaymentMethod, StatusActor}

pub data EventType : Type 0 where
  order_placed order_accepted order_rejected order_delivered order_cancelled : EventType
  payment_completed payment_failed : EventType

pub record ItemLine : Type 0 where
  pub product_id : ℕ
  pub quantity : ℕ
  pub unit_price : ℕ
  pub line_total : ℕ

-- buildOrderPlacedPayload, which the webhook service repeats.
pub record OrderPlacedPayload : Type 0 where
  pub order_id : Text
  pub region : Text
  pub country_code : Text
  pub restaurant_id : ℕ
  pub branch_id : ℕ
  pub customer_id : ℕ
  pub status : OrderStatus
  pub payment_method : PaymentMethod
  pub subtotal : ℕ
  pub delivery_fee : ℕ
  pub service_fee : ℕ
  pub total : ℕ
  pub currency : Text
  pub items : List ItemLine
  pub placed_at : ℕ

-- buildOrderTransitionPayload.
pub record OrderTransitionPayload : Type 0 where
  pub order_id : Text
  pub region : Text
  pub country_code : Text
  pub restaurant_id : ℕ
  pub branch_id : ℕ
  pub customer_id : ℕ
  pub status : OrderStatus
  pub reason : Option Text
  pub actor : StatusActor
  pub occurred_at : ℕ

pub record OrderDeliveredPayload : Type 0 where
  pub order_id : Text
  pub region : Text
  pub country_code : Text
  pub restaurant_id : ℕ
  pub branch_id : ℕ
  pub customer_id : ℕ
  pub delivery_agent_id : ℕ
  pub total : ℕ
  pub subtotal : ℕ
  pub delivery_fee : ℕ
  pub commission : ℕ
  pub currency : Text
  pub payment_method : PaymentMethod
  pub placed_at : ℕ
  pub delivered_at : ℕ

-- Of payment.completed and payment.failed, with `completedAt` or `failedAt` as `at_time`.
pub record PaymentPayload : Type 0 where
  pub order_id : Text
  pub region : Text
  pub restaurant_id : ℕ
  pub branch_id : ℕ
  pub customer_id : ℕ
  pub provider_reference_id : Text
  pub amount : ℕ
  pub currency : Text
  pub at_time : ℕ

pub data Payload : Type 0 where
  placed_order : OrderPlacedPayload → Payload
  moved_order : OrderTransitionPayload → Payload
  delivered_order : OrderDeliveredPayload → Payload
  payment : PaymentPayload → Payload

-- `aggregateType`.
pub data Aggregate : Type 0 where
  order_aggregate payment_aggregate : Aggregate

pub record InsertOutboxInput : Type 0 where
  pub aggregate_type : Aggregate
  pub aggregate_id : Text
  pub event_type : EventType
  pub payload : Payload

pub record OutboxRow : Type 0 where
  pub id : ℕ
  pub aggregate_type : Aggregate
  pub aggregate_id : Text
  pub event_type : EventType
  pub event_id : Text
  pub payload : Payload
  pub created_at : ℕ
  pub dispatched_at : Option ℕ
  pub attempts : ℕ
  pub last_error : Option Text
