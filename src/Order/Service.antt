-- ===== src/Order/Service.antt =====
-- `OrderService.updateStatus` of app/order/service/order.service.ts, with the payloads that the
-- service builds. The listing cache of the branch, which the handler drops and whose errors it
-- swallows, is not part of the state.
pub mod UpdateStatus
use quickbite_order_service.Prelude.{ℕ, Option, none, some, List, [], ◌∷◌, map}
use quickbite_order_service.Prelude.Text.{Text}
use quickbite_order_service.Order.Enums.{OrderStatus, StatusActor, accepted, rejected, cancelled}
use quickbite_order_service.Order.Entity.{OrderEntity, OrderItemEntity}
use quickbite_order_service.Order.Status.{
  Stamp, TransitionResult, stamped, invalid_status_transition, reason_required,
  cancellation_window_expired, AssertTransitionContext, assert_transition,
}
use quickbite_order_service.Order.Repo.{find_order_by_public_id, update_order_status}
use quickbite_order_service.Order.Access.{ActorContext, resolve_status_actor}
use quickbite_order_service.Events.Entity.{
  EventType, order_accepted, order_rejected, order_cancelled, Payload, moved_order, placed_order,
  ItemLine, OrderPlacedPayload, order_aggregate, InsertOutboxInput,
}
use quickbite_order_service.Events.Outbox.{insert_outbox_event}
use quickbite_order_service.Store.{
  Env, World, Action, Result, ok, err, AppError, order_not_found, transaction, or_throw, lift, emit,
  pure, ◌>>=◌, ◌>>◌, customer_room, branch_room, status_changed,
}

pub record UpdateOrderStatusRequest : Type 0 where
  pub status : OrderStatus
  pub reason : Option Text

-- OUTBOX_EVENT_FOR_STATUS.
unfoldable pub outbox_event_for_status : OrderStatus → Option EventType
outbox_event_for_status accepted = some order_accepted
outbox_event_for_status rejected = some order_rejected
outbox_event_for_status cancelled = some order_cancelled
outbox_event_for_status _ = none

unfoldable pub build_order_transition_payload : OrderEntity → Option Text → StatusActor → Payload
build_order_transition_payload order reason actor = moved_order (record {
  order_id = order.public_id;
  region = order.region;
  country_code = order.country_code;
  restaurant_id = order.restaurant_id;
  branch_id = order.branch_id;
  customer_id = order.customer_id;
  status = order.status;
  reason = reason;
  actor = actor;
  occurred_at = order.updated_at;
})

unfoldable pub item_line : OrderItemEntity → ItemLine
item_line i = record {
  product_id = i.product_id;
  quantity = i.quantity;
  unit_price = i.unit_price_snapshot;
  line_total = i.line_total;
}

unfoldable pub build_order_placed_payload : OrderEntity → List OrderItemEntity → Payload
build_order_placed_payload order items = placed_order (record {
  order_id = order.public_id;
  region = order.region;
  country_code = order.country_code;
  restaurant_id = order.restaurant_id;
  branch_id = order.branch_id;
  customer_id = order.customer_id;
  status = order.status;
  payment_method = order.payment_method;
  subtotal = order.subtotal;
  delivery_fee = order.delivery_fee;
  service_fee = order.service_fee;
  total = order.total;
  currency = order.currency;
  items = map item_line items;
  placed_at = order.created_at;
})

-- The error that a refused transition throws.
abbrev pub or_refused : TransitionResult → Result (Option Stamp)
or_refused (stamped c) = ok c
or_refused invalid_status_transition = err AppError.invalid_status_transition
or_refused reason_required = err AppError.reason_required
or_refused cancellation_window_expired = err AppError.cancellation_window_expired

unfoldable pub transition_context :
    StatusActor → Option Text → OrderEntity → AssertTransitionContext
transition_context actor reason order = record {
  actor = actor;
  reason = reason;
  placed_at = some order.created_at;
  accepted_at = order.accepted_at;
}

-- The outbox row of a transition, where the new status has an event.
unfoldable pub insert_transition_event :
    Env → Option EventType → OrderEntity → Option Text → StatusActor → Action (Unit {0})
insert_transition_event env none updated reason actor = pure tt
insert_transition_event env (some event_type) updated reason actor =
    insert_outbox_event env 0 (record {
      aggregate_type = order_aggregate;
      aggregate_id = updated.public_id;
      event_type = event_type;
      payload = build_order_transition_payload updated reason actor;
    })

-- The body of the transaction.
unfoldable pub apply_transition :
    Env → Text → UpdateOrderStatusRequest → Option Stamp → StatusActor → Action OrderEntity
apply_transition env public_id body stamp actor = do
  updated ← update_order_status env public_id body.status stamp
  insert_transition_event env (outbox_event_for_status body.status) updated body.reason actor
  pure updated

unfoldable pub update_status :
    Env → ActorContext → Text → UpdateOrderStatusRequest → Action OrderEntity
update_status env actor public_id body = do
  order ← or_throw (← find_order_by_public_id public_id) order_not_found
  status_actor ← lift (resolve_status_actor actor order)
  stamp ← lift (
      or_refused (
        assert_transition env.now order.status body.status
          (transition_context status_actor body.reason order)))
  updated ← transaction env (apply_transition env order.public_id body stamp status_actor)
  emit (customer_room updated.customer_id) (status_changed updated)
  emit (branch_room updated.branch_id) (status_changed updated)
  pure updated
