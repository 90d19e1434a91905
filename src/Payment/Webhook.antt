-- ===== src/Payment/Webhook.antt =====
-- `KashierWebhookService` of app/payment/service/kashier-webhook.service.ts. What `JSON.parse` gives is
-- an argument, `none` where it throws. The provider's check of the signature and the message of an
-- error are parameters: the first is the HMAC of a library, the second a text of the runtime.
pub mod Duplicates
pub mod Capture
use quickbite_order_service.Prelude.{
  ℕ, ◌+◌, Bool, true, false, ◌||◌, not, Option, none, some, List, [], ◌∷◌, ◌++◌, length,
  if◌then◌else◌, is_some,
}
use quickbite_order_service.Prelude.Text.{Text, codes, text_eq}
use quickbite_order_service.Order.Enums.{pending_payment, placed, status_eq}
use quickbite_order_service.Order.Entity.{OrderEntity, OrderItemEntity}
use quickbite_order_service.Order.Repo.{
  find_order_by_public_id, update_order_status, find_items_by_order_ids,
}
use quickbite_order_service.Order.Service.{build_order_placed_payload}
use quickbite_order_service.Payment.Entity.{
  KashierWebhookData, KashierWebhookEnvelope, PaymentSessionEntity, PaymentWebhookEventEntity,
  kashier_provider_id, captured, TransactionStatus, succeeded, charge, TransactionMethod,
  PaymentSessionStatus,
}
use quickbite_order_service.Payment.Repo.{
  CreateTransactionInput, create_transaction, find_active_session_by_order_id, update_session,
  record_webhook_or_skip, mark_webhook_processed,
}
use quickbite_order_service.Events.Entity.{
  EventType, payment_completed, payment_failed, order_placed, Payload, payment, order_aggregate,
  payment_aggregate,
}
use quickbite_order_service.Events.Outbox.{insert_outbox_event}
use quickbite_order_service.Store.{
  infrastructure, attempt, Env, World, Action, Result, ok, err, AppError, malformed_webhook,
  invalid_webhook_signature, transaction, or_throw, throw_if, throw, lift, emit, pure, ◌>>=◌, ◌>>◌,
  customer_room, branch_room, order_created, status_changed,
}

-- The fields of a parsed body, as far as they are read; `none` is a field that is missing, and of
-- `signatureKeys` one that is no array.
pub record ParsedWebhook : Type 0 where
  pub event : Option Text
  pub transaction_id : Option Text
  pub merchant_order_id : Text
  pub kashier_order_id : Text
  pub status : Text
  pub signature_keys : Option (List Text)

-- A text that is there and not empty.
abbrev pub truthy : Option Text → Option Text
truthy none = none
truthy (some []) = none
truthy (some (c ∷ s)) = some (c ∷ s)

abbrev pub envelope_of :
    ParsedWebhook → Option Text → Option Text → Option (List Text) → Result KashierWebhookEnvelope
envelope_of p (some event) (some id) (some keys) = ok (record {
  is_pay = text_eq event (codes "pay");
  content = record {
    transaction_id = id;
    merchant_order_id = p.merchant_order_id;
    kashier_order_id = p.kashier_order_id;
    is_success = text_eq p.status (codes "SUCCESS");
    signature_keys = keys;
  };
})
envelope_of p _ _ _ = err malformed_webhook

unfoldable pub parse_envelope : Option ParsedWebhook → Result KashierWebhookEnvelope
parse_envelope none = err malformed_webhook
parse_envelope (some p) = envelope_of p (truthy p.event) (truthy p.transaction_id) p.signature_keys

abbrev pub kashier_key : Text → Text
kashier_key id = codes "kashier:" ++ id

-- The charge of a webhook: to the owner where it succeeded, to nobody where it failed.
unfoldable pub charge_input :
    Text
    → OrderEntity
    → PaymentSessionEntity
    → KashierWebhookData
    → TransactionStatus
    → Option ℕ
    → CreateTransactionInput
charge_input region order session content status owner = record {
  region = region;
  order_id = some order.id;
  transaction_type = charge;
  method = TransactionMethod.online;
  provider_id = some kashier_provider_id;
  provider_reference_id = some content.transaction_id;
  status = status;
  amount = session.amount;
  currency = session.currency;
  src_acc_id = some order.customer_id;
  dst_acc_id = owner;
  idempotency_key = some (kashier_key content.transaction_id);
}

unfoldable pub payment_payload :
    Env → Text → OrderEntity → PaymentSessionEntity → KashierWebhookData → Payload
payment_payload env region order session content = payment (record {
  order_id = order.public_id;
  region = region;
  restaurant_id = order.restaurant_id;
  branch_id = order.branch_id;
  customer_id = order.customer_id;
  provider_reference_id = content.transaction_id;
  amount = session.amount;
  currency = session.currency;
  at_time = env.now;
})

unfoldable pub insert_payment_event :
    Env
    → Text
    → OrderEntity
    → PaymentSessionEntity
    → KashierWebhookData
    → EventType
    → Action (Unit {0})
insert_payment_event env region order session content event_type =
    insert_outbox_event env 2 (record {
      aggregate_type = payment_aggregate;
      aggregate_id = order.public_id;
      event_type = event_type;
      payload = payment_payload env region order session content;
    })

-- The order becomes placed, with its event; the placed order and the number of its lines.
unfoldable pub place_paid_order : Env → OrderEntity → Action (OrderEntity × ℕ)
place_paid_order env order = do
  paid ← update_order_status env order.public_id placed none
  items ← find_items_by_order_ids (paid.id ∷ [])
  insert_outbox_event env 3 (record {
    aggregate_type = order_aggregate;
    aggregate_id = paid.public_id;
    event_type = order_placed;
    payload = build_order_placed_payload paid items;
  })
  pure (paid, length items)

abbrev pub place_if_pending : Bool → Env → OrderEntity → Action (Option (OrderEntity × ℕ))
place_if_pending true env order = place_paid_order env order >>= λ p. pure (some p)
place_if_pending false env order = pure none

-- The body of the transaction of a successful charge; what is to be announced, if the order was placed.
unfoldable pub capture :
    Env
    → Text
    → OrderEntity
    → PaymentSessionEntity
    → KashierWebhookEnvelope
    → Action (Option (OrderEntity × ℕ))
capture env region order session envelope = do
  update_session env session.id captured envelope
  create_transaction env 1 (
      charge_input region order session envelope.content succeeded (some order.restaurant_owner_id))
  insert_payment_event env region order session envelope.content payment_completed
  place_if_pending (status_eq order.status pending_payment) env order

-- The body of the transaction of a failed charge. The order stays as it is.
unfoldable pub record_failure :
    Env → Text → OrderEntity → PaymentSessionEntity → KashierWebhookEnvelope → Action (Unit {0})
record_failure env region order session envelope = do
  update_session env session.id PaymentSessionStatus.failed envelope
  create_transaction env 1
      (charge_input region order session envelope.content TransactionStatus.failed none)
  insert_payment_event env region order session envelope.content payment_failed

unfoldable pub announce : Option (OrderEntity × ℕ) → Action (Unit {0})
announce none = pure tt
announce (some (paid, count)) = do
  emit (branch_room paid.branch_id) (order_created paid count)
  emit (customer_room paid.customer_id) (status_changed paid)

unfoldable pub reconcile_session :
    Bool
    → Env
    → Text
    → KashierWebhookEnvelope
    → OrderEntity
    → PaymentSessionEntity
    → Action (Unit {0})
reconcile_session true env region envelope order session =
    transaction env (capture env region order session envelope) >>= announce
reconcile_session false env region envelope order session =
    transaction env (record_failure env region order session envelope)

abbrev pub with_session :
    Env
    → Text
    → KashierWebhookEnvelope
    → OrderEntity
    → Option PaymentSessionEntity
    → Action (Unit {0})
with_session env region envelope order none = pure tt
with_session env region envelope order (some session) =
    reconcile_session envelope.content.is_success env region envelope order session

abbrev pub with_order : Env → Text → KashierWebhookEnvelope → Option OrderEntity → Action (Unit {0})
with_order env region envelope none = pure tt
with_order env region envelope (some order) = do
  session ← find_active_session_by_order_id order.id
  with_session env region envelope order session

abbrev pub reconcile_pay : Bool → Env → Text → KashierWebhookEnvelope → Action (Unit {0})
reconcile_pay false env region envelope = pure tt
reconcile_pay true env region envelope = do
  order ← find_order_by_public_id envelope.content.merchant_order_id
  with_order env region envelope order

-- Only `pay` events are handled; an unknown order or one with no open session is passed over.
unfoldable pub reconcile : Env → Text → KashierWebhookEnvelope → Action (Unit {0})
reconcile env region envelope = reconcile_pay envelope.is_pay env region envelope

module _ (verify : KashierWebhookData → Text → Bool) (message : AppError → Text) where
  -- The `catch`: the event is stamped, and the error thrown on.
  abbrev pub stamp_error : Env → ℕ → AppError → World → Result (Unit {0}) × World
  stamp_error env id e = attempt env 2 (mark_webhook_processed env id (some (message e))) >> throw e

  -- The `try` and its `catch`: the event is stamped in either case, where that does not fail.
  abbrev pub stamp_outcome : Env → ℕ → Result (Unit {0}) × World → Result (Unit {0}) × World
  stamp_outcome env id (ok u, w) =
      if env.is_failing 1
      then stamp_error env id infrastructure w
      else mark_webhook_processed env id none w
  stamp_outcome env id (err e, w) = stamp_error env id e w

  abbrev pub handle_recorded :
      Env → Text → KashierWebhookEnvelope → Option PaymentWebhookEventEntity → Action (Unit {0})
  handle_recorded env region envelope none w = (ok tt, w)
  handle_recorded env region envelope (some e) w =
      stamp_outcome env e.id (reconcile env region envelope w)

  unfoldable pub process_kashier_webhook :
      Env → Option ParsedWebhook → Option Text → Text → Action (Unit {0})
  process_kashier_webhook env raw_body signature_header region = do
    envelope ← lift (parse_envelope raw_body)
    signature ← or_throw (truthy signature_header) invalid_webhook_signature
    throw_if (not (verify envelope.content signature)) invalid_webhook_signature
    recorded ← attempt env 0 (
        record_webhook_or_skip env (record {
          region = region;
          provider_id = kashier_provider_id;
          provider_event_id = envelope.content.transaction_id;
          signature = signature;
          payload = envelope;
        }))
    handle_recorded env region envelope recorded
