-- ===== src/Payment/Webhook/Capture.antt =====
-- What the webhook of a successful payment does to an order that waits for it.
use mathlib.Core.Path.{subst, sym}
use mathlib.Core.List.{append_assoc}
use quickbite_order_service.Prelude.{
  ◌≡◌, true, false, none, some, List, [], ◌∷◌, ◌++◌, length, map, ap, ◌∙◌,
}
use quickbite_order_service.Prelude.Text.{Text, codes}
use quickbite_order_service.Prelude.Rows.{
  find_where, select_where, update_where, insert_row, find_where-update_self,
}
use quickbite_order_service.Order.Enums.{pending_payment, placed}
use quickbite_order_service.Order.Entity.{OrderEntity, OrderItemEntity}
use quickbite_order_service.Order.Repo.{
  has_public_id, contains_id, with_status, set_stamp, update_order_status, find_items_by_order_ids,
  find_order_by_public_id,
}
use quickbite_order_service.Order.Repo.Laws.{found-public_id}
use quickbite_order_service.Order.Service.{build_order_placed_payload, item_line}
use quickbite_order_service.Payment.Entity.{
  KashierWebhookEnvelope, PaymentSessionEntity, captured, succeeded, charge, TransactionMethod,
  kashier_provider_id,
}
use quickbite_order_service.Payment.Repo.{
  new_transaction, key_taken, create_transaction, is_open_for, newest_session,
  find_active_session_by_order_id, has_session_id, with_session_status, update_session,
}
use quickbite_order_service.Payment.Webhook.{
  kashier_key, charge_input, payment_payload, insert_payment_event, place_paid_order, capture,
  announce, reconcile_session, reconcile_pay, reconcile,
}
use quickbite_order_service.Events.Entity.{
  OutboxRow, payment_completed, order_placed, placed_order, payment, order_aggregate,
  payment_aggregate,
}
use quickbite_order_service.Events.Outbox.{new_outbox_row, insert_outbox_event}
use quickbite_order_service.Store.{
  Env, World, Db, ok, continue, customer_room, branch_room, order_created, status_changed,
}
use quickbite_order_service.Store.Laws.{steps, transaction-ok}

-- Why a payment is captured: the event is a successful payment of an order that waits for it and has an
-- open session, the provider's transaction is not in the ledger yet, and the commit goes through.
pub record Captures (env : Env) (envelope : KashierWebhookEnvelope) (w : World)
    (order : OrderEntity) (session : PaymentSessionEntity) : Type 0 where
  pub is_payment : envelope.is_pay ≡ true
  pub succeeds : envelope.content.is_success ≡ true
  pub found : find_where (has_public_id envelope.content.merchant_order_id) w.db.orders ≡ some order
  pub waiting : order.status ≡ pending_payment
  pub opened :
      newest_session (select_where (is_open_for order.id) w.db.payment_sessions) ≡ some session
  pub stored : find_where (has_session_id session.id) w.db.payment_sessions ≡ some session
  pub fresh :
      key_taken (some (kashier_key envelope.content.transaction_id)) w.db.transactions ≡ false
  pub committed : env.is_committed ≡ true

module _ (env : Env) (region : Text) (envelope : KashierWebhookEnvelope) (w : World)
    (order : OrderEntity) (session : PaymentSessionEntity) where
  abbrev pub paid : OrderEntity
  paid = record order { status = placed; updated_at = env.now }

  abbrev pub lines : List OrderItemEntity
  lines = select_where (λ i. contains_id (order.id ∷ []) i.order_id) w.db.order_items

  -- The rows of payment.completed and of order.placed.
  abbrev pub rows : List OutboxRow
  rows =
      new_outbox_row env 2 (record {
        aggregate_type = payment_aggregate;
        aggregate_id = order.public_id;
        event_type = payment_completed;
        payload = payment (record {
          order_id = order.public_id;
          region = region;
          restaurant_id = order.restaurant_id;
          branch_id = order.branch_id;
          customer_id = order.customer_id;
          provider_reference_id = envelope.content.transaction_id;
          amount = session.amount;
          currency = session.currency;
          at_time = env.now;
        });
      })
      ∷ new_outbox_row env 3 (record {
        aggregate_type = order_aggregate;
        aggregate_id = order.public_id;
        event_type = order_placed;
        payload = placed_order (record {
          order_id = order.public_id;
          region = order.region;
          country_code = order.country_code;
          restaurant_id = order.restaurant_id;
          branch_id = order.branch_id;
          customer_id = order.customer_id;
          status = placed;
          payment_method = order.payment_method;
          subtotal = order.subtotal;
          delivery_fee = order.delivery_fee;
          service_fee = order.service_fee;
          total = order.total;
          currency = order.currency;
          items =
              map
                (λ i. record {
                  product_id = i.product_id;
                  quantity = i.quantity;
                  unit_price = i.unit_price_snapshot;
                  line_total = i.line_total;
                })
                lines;
          placed_at = order.created_at;
        });
      })
      ∷ []

  abbrev pub tables_captured : Db
  tables_captured = record w.db {
    orders =
        update_where (has_public_id order.public_id)
          (λ o. record o { status = placed; updated_at = env.now }) w.db.orders;
    payment_sessions =
        update_where (has_session_id session.id)
          (λ s. record s {
            status = captured;
            raw_last_payload = some envelope;
            updated_at = env.now;
          })
          w.db.payment_sessions;
    transactions =
        insert_row
          (record {
            id = env.next_id 1;
            region = region;
            order_id = some order.id;
            transaction_type = charge;
            method = TransactionMethod.online;
            provider_id = some kashier_provider_id;
            provider_reference_id = some envelope.content.transaction_id;
            status = succeeded;
            amount = session.amount;
            currency = session.currency;
            src_acc_id = some order.customer_id;
            dst_acc_id = some order.restaurant_owner_id;
            is_refunded = false;
            refunded_payment_id = none;
            idempotency_key = some (codes "kashier:" ++ envelope.content.transaction_id);
            created_at = env.now;
            updated_at = env.now;
          })
          w.db.transactions;
    events_outbox = w.db.events_outbox ++ rows;
  }

  capture_lem :
      Captures env envelope w order session
      → capture env region order session envelope w
        ≡ (ok (some (paid, length lines)), record w { db = tables_captured })
  unfolding capture update_session create_transaction charge_input new_transaction
      with_session_status payment_payload build_order_placed_payload item_line insert_payment_event
      insert_outbox_event place_paid_order find_items_by_order_ids update_order_status with_status
      set_stamp
  capture_lem c =
      let own : find_where (has_public_id order.public_id) w.db.orders ≡ some order =
        subst (λ id. find_where (has_public_id id) w.db.orders ≡ some order)
          (sym (found-public_id envelope.content.merchant_order_id w.db.orders order c.found))
          c.found in
      rw (
        capture, steps, update_session, c.stored, create_transaction, charge_input, c.fresh,
        c.waiting, own, append_assoc,
      )

  -- The world after a capture.
  abbrev pub after_capture : World
  after_capture = record w {
    db = tables_captured;
    sent =
        (w.sent ++ (branch_room order.branch_id, order_created paid (length lines)) ∷ [])
        ++ (customer_room order.customer_id, status_changed paid) ∷ [];
  }

-- A successful payment of an order that waits for it, whose session is open, whose provider transaction
-- is new to the ledger, and whose commit goes through, makes the order placed, its session captured,
-- and one charge from the customer to the owner over the session's amount; it writes the events of the payment and of the
-- order, tells the branch and the customer, and changes nothing else.
pub reconcile-Captures :
    (env : Env) (region : Text) (envelope : KashierWebhookEnvelope) (w : World)
    (order : OrderEntity) (session : PaymentSessionEntity)
    → Captures env envelope w order session
    → (reconcile env region envelope w ≡ (ok tt, after_capture env region envelope w order session))
      × (find_where
            (has_public_id envelope.content.merchant_order_id)
            (reconcile env region envelope w).1.db.orders
          ≡ some (record order { status = placed; updated_at = env.now }))
unfolding reconcile find_order_by_public_id find_active_session_by_order_id reconcile_session
    announce with_status set_stamp
reconcile-Captures env region envelope w order session c =
    let done =
      transaction-ok env (capture env region order session envelope) w c.committed
        (capture_lem env region envelope w order session c) in
    let to_session : reconcile_pay true env region envelope w
        ≡ reconcile_session envelope.content.is_success env region envelope order session w =
      rw (steps, find_order_by_public_id, c.found, find_active_session_by_order_id, c.opened) in
    let e : reconcile env region envelope w
        ≡ (ok tt, after_capture env region envelope w order session) =
      ap (λ b. reconcile_pay b env region envelope w) c.is_payment
      ∙ to_session
      ∙ ap (λ b. reconcile_session b env region envelope order session w) c.succeeds
      ∙ ap (λ r. continue announce r) done in
    (
      e,
      rw e (
          subst
            (λ id.
              find_where (has_public_id envelope.content.merchant_order_id) (
                update_where (has_public_id id)
                  (λ o. record o { status = placed; updated_at = env.now }) w.db.orders)
              ≡ some (record order { status = placed; updated_at = env.now }))
            (sym (found-public_id envelope.content.merchant_order_id w.db.orders order c.found))
            (find_where-update_self (has_public_id envelope.content.merchant_order_id)
                (λ o. record o { status = placed; updated_at = env.now }) w.db.orders (λ o h. h)
              ∙ rw c.found)),
    )
