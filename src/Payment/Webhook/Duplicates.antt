-- ===== src/Payment/Webhook/Duplicates.antt =====
-- A webhook is worked off once: the log of events decides, and it remembers every verified delivery.
use quickbite_order_service.Prelude.{
  ℕ, ◌≡◌, refl, ◌⊎◌, Bool, true, false, Option, none, some, List, is_some, if◌then◌else◌, arith,
  Bool-cases, Option-cases, inl, inr, ap, ◌∙◌,
}
use quickbite_order_service.Prelude.Text.{Text, text_eq_refl}
use quickbite_order_service.Prelude.Rows.{
  find_where, insert_row, is_some-find_where-update, is_some-find_where-insert,
}
use quickbite_order_service.Order.Entity.{OrderEntity}
use quickbite_order_service.Order.Repo.{
  update_order_status, find_items_by_order_ids, find_order_by_public_id,
}
use quickbite_order_service.Payment.Entity.{
  KashierWebhookData, KashierWebhookEnvelope, PaymentSessionEntity, PaymentWebhookEventEntity,
  kashier_provider_id,
}
use quickbite_order_service.Payment.Repo.{
  create_transaction, find_active_session_by_order_id, update_session, RecordWebhookInput,
  record_webhook_or_skip, mark_webhook_processed, has_event, has_event_id, set_webhook_events,
  new_webhook_event,
}
use quickbite_order_service.Payment.Webhook.{
  ParsedWebhook, parse_envelope, truthy, place_paid_order, place_if_pending, capture,
  record_failure, announce, reconcile_session, with_session, with_order, reconcile_pay, reconcile,
  insert_payment_event, process_kashier_webhook, stamp_error, stamp_outcome,
}
use quickbite_order_service.Events.Outbox.{insert_outbox_event}
use quickbite_order_service.Store.{
  Env, World, Db, Result, ok, err, AppError, invalid_webhook_signature, transaction, or_throw,
  throw_if, lift, attempt, infrastructure,
}
use quickbite_order_service.Store.Laws.{Result-cases, steps, Keeps, >>=-Keeps, transaction-Keeps}

abbrev log_of : World → List PaymentWebhookEventEntity
log_of w = w.db.payment_webhook_events

place_if_pending-Keeps :
    (b : Bool) (env : Env) (order : OrderEntity) → Keeps log_of (place_if_pending b env order)
unfolding place_paid_order update_order_status find_items_by_order_ids insert_outbox_event
place_if_pending-Keeps true env order w = ground arith
place_if_pending-Keeps false env order w = refl

capture-Keeps :
    (env : Env) (region : Text) (order : OrderEntity) (session : PaymentSessionEntity)
    (envelope : KashierWebhookEnvelope)
    → Keeps log_of (capture env region order session envelope)
unfolding capture update_session insert_payment_event insert_outbox_event create_transaction
    place_paid_order update_order_status find_items_by_order_ids
capture-Keeps env region order session envelope w = ground arith

record_failure-Keeps :
    (env : Env) (region : Text) (order : OrderEntity) (session : PaymentSessionEntity)
    (envelope : KashierWebhookEnvelope)
    → Keeps log_of (record_failure env region order session envelope)
unfolding record_failure update_session insert_payment_event insert_outbox_event create_transaction
record_failure-Keeps env region order session envelope w = ground arith

abbrev events_of : Db → List PaymentWebhookEventEntity
events_of db = db.payment_webhook_events

announce-Keeps : (o : Option (OrderEntity × ℕ)) → Keeps log_of (announce o)
unfolding announce
announce-Keeps none w = refl
announce-Keeps (some (paid, count)) w = refl

reconcile_session-Keeps :
    (b : Bool) (env : Env) (region : Text) (envelope : KashierWebhookEnvelope) (order : OrderEntity)
    (session : PaymentSessionEntity)
    → Keeps log_of (reconcile_session b env region envelope order session)
unfolding reconcile_session
reconcile_session-Keeps true env region envelope order session =
    >>=-Keeps log_of (transaction env (capture env region order session envelope)) announce
      (transaction-Keeps events_of env (capture env region order session envelope)
        (capture-Keeps env region order session envelope))
      announce-Keeps
reconcile_session-Keeps false env region envelope order session =
    transaction-Keeps events_of env (record_failure env region order session envelope)
      (record_failure-Keeps env region order session envelope)

with_session-Keeps :
    (env : Env) (region : Text) (envelope : KashierWebhookEnvelope) (order : OrderEntity)
    (o : Option PaymentSessionEntity)
    → Keeps log_of (with_session env region envelope order o)
with_session-Keeps env region envelope order none = λ w. refl
with_session-Keeps env region envelope order (some session) =
    reconcile_session-Keeps envelope.content.is_success env region envelope order session

with_order-Keeps :
    (env : Env) (region : Text) (envelope : KashierWebhookEnvelope) (o : Option OrderEntity)
    → Keeps log_of (with_order env region envelope o)
unfolding find_active_session_by_order_id
with_order-Keeps env region envelope none = λ w. refl
with_order-Keeps env region envelope (some order) =
    >>=-Keeps log_of (find_active_session_by_order_id order.id)
      (with_session env region envelope order) (λ w. refl)
      (with_session-Keeps env region envelope order)

reconcile_pay-Keeps :
    (b : Bool) (env : Env) (region : Text) (envelope : KashierWebhookEnvelope)
    → Keeps log_of (reconcile_pay b env region envelope)
unfolding find_order_by_public_id
reconcile_pay-Keeps false env region envelope = λ w. refl
reconcile_pay-Keeps true env region envelope =
    >>=-Keeps log_of (find_order_by_public_id envelope.content.merchant_order_id)
      (with_order env region envelope) (λ w. refl) (with_order-Keeps env region envelope)

reconcile-Keeps :
    (env : Env) (region : Text) (envelope : KashierWebhookEnvelope)
    → Keeps log_of (reconcile env region envelope)
unfolding reconcile
reconcile-Keeps env region envelope = reconcile_pay-Keeps envelope.is_pay env region envelope

has_own_event :
    (env : Env) (input : RecordWebhookInput)
    → has_event input.provider_id input.provider_event_id (new_webhook_event env input) ≡ true
unfolding new_webhook_event
has_own_event env input = rw (text_eq_refl input.provider_event_id) (ground arith)

-- The event is in the log.
unfoldable pub is_logged : ℕ → Text → World → Bool
is_logged provider_id event_id w = is_some (find_where (has_event provider_id event_id) (log_of w))

is_logged-Keeps :
    (env : Env) (region : Text) (envelope : KashierWebhookEnvelope) (w : World)
    → is_logged kashier_provider_id envelope.content.transaction_id
        (reconcile env region envelope w).1
      ≡ is_logged kashier_provider_id envelope.content.transaction_id w
unfolding is_logged
is_logged-Keeps env region envelope w =
    ap
      (λ es.
        is_some (find_where (has_event kashier_provider_id envelope.content.transaction_id) es))
      (reconcile-Keeps env region envelope w)

is_logged-insert :
    (env : Env) (input : RecordWebhookInput) (w : World)
    → is_logged input.provider_id input.provider_event_id (record w {
      db = set_webhook_events (insert_row (new_webhook_event env input) (log_of w)) w.db;
    })
      ≡ true
unfolding is_logged
is_logged-insert env input w =
    is_some-find_where-insert (has_event input.provider_id input.provider_event_id)
      (new_webhook_event env input) (log_of w) (has_own_event env input)

module _ (verify : KashierWebhookData → Text → Bool) (message : AppError → Text) where
  stamp_error-logged :
      (env : Env) (id : ℕ) (e : AppError) (w : World) (p : ℕ) (event_id : Text)
      → is_logged p event_id (stamp_error verify message env id e w).1 ≡ is_logged p event_id w
  unfolding mark_webhook_processed is_logged
  stamp_error-logged env id e w p event_id = elim (Bool-cases (env.is_failing 2)) [
    | inl f ↦ rw (stamp_error, attempt, f)
    | inr f ↦
        rw (stamp_error, attempt, f)
          (is_some-find_where-update (has_event p event_id) (has_event_id id)
            (λ r. record r { processed_at = some env.now; process_error = some (message e) })
            (log_of w) (λ r. refl))
  ]

  stamp_outcome-logged :
      (env : Env) (id : ℕ) (r : Result (Unit {0}) × World) (p : ℕ) (event_id : Text)
      → is_logged p event_id (stamp_outcome verify message env id r).1 ≡ is_logged p event_id r.1
  unfolding mark_webhook_processed is_logged
  stamp_outcome-logged env id (ok u, w) p event_id = elim (Bool-cases (env.is_failing 1)) [
    | inl f ↦ rw (stamp_outcome, f) (stamp_error-logged env id infrastructure w p event_id)
    | inr f ↦
        rw (stamp_outcome, f)
          (is_some-find_where-update (has_event p event_id) (has_event_id id)
            (λ e. record e { processed_at = some env.now; process_error = none }) (log_of w)
            (λ e. refl))
  ]
  stamp_outcome-logged env id (err x, w) p event_id = stamp_error-logged env id x w p event_id

  module _ (env : Env) (raw_body : Option ParsedWebhook) (header : Option Text) (region : Text)
      (envelope : KashierWebhookEnvelope) (signature : Text)
      (parsed : parse_envelope raw_body ≡ ok envelope) (signed : truthy header ≡ some signature)
      (verified : verify envelope.content signature ≡ true) where
    abbrev input : RecordWebhookInput
    input = record {
      region = region;
      provider_id = kashier_provider_id;
      provider_event_id = envelope.content.transaction_id;
      signature = signature;
      payload = envelope;
    }

    duplicate :
        (w : World)
        → env.is_failing 0 ≡ false
        → is_logged kashier_provider_id envelope.content.transaction_id w ≡ true
        → process_kashier_webhook verify message env raw_body header region w ≡ (ok tt, w)
    unfolding process_kashier_webhook record_webhook_or_skip is_logged
    duplicate w f h = rw (
      process_kashier_webhook, steps, parsed, signed, or_throw, throw_if, verified,
      record_webhook_or_skip, h, attempt, f,
    )

    fresh :
        (w : World)
        → env.is_failing 0 ≡ false
        → is_logged kashier_provider_id envelope.content.transaction_id w ≡ false
        → process_kashier_webhook verify message env raw_body header region w
          ≡ stamp_outcome verify message env (env.next_id 0) (
              reconcile env region envelope (record w {
                db = set_webhook_events (insert_row (new_webhook_event env input) (log_of w)) w.db;
              }))
    unfolding process_kashier_webhook record_webhook_or_skip is_logged new_webhook_event
    fresh w f h = rw (
      process_kashier_webhook, steps, parsed, signed, or_throw, throw_if, verified,
      record_webhook_or_skip, h, attempt, f,
    )

    -- A delivery that is signed as it should be, and whose event can be inserted, ends with its event in the log, whatever became of the
    -- order.
    logged :
        (w : World)
        → env.is_failing 0 ≡ false
        → is_logged kashier_provider_id envelope.content.transaction_id
            (process_kashier_webhook verify message env raw_body header region w).1
          ≡ true
    logged w f =
        elim (Bool-cases (is_logged kashier_provider_id envelope.content.transaction_id w)) [
          | inl h ↦ rw (duplicate w f h) h
          | inr h ↦
              let e = new_webhook_event env input in
              let w1 = record w { db = set_webhook_events (insert_row e (log_of w)) w.db } in
              rw (fresh w f h) (
                stamp_outcome-logged env (env.next_id 0) (reconcile env region envelope w1)
                  kashier_provider_id envelope.content.transaction_id
                ∙ is_logged-Keeps env region envelope w1
                ∙ is_logged-insert env input w)
        ]

-- A delivery that parses and whose signature the provider confirms is worked off once: if the insert
-- of its event does not fail, the event is in the log after it, whether the delivery succeeded or
-- threw; and in any world with the event in the log the same body, delivered again, changes nothing,
-- and is answered with success if its insert does not fail.
pub process_kashier_webhook-again :
    (verify : KashierWebhookData → Text → Bool) (message : AppError → Text) (env later : Env)
    (raw_body : Option ParsedWebhook) (header : Option Text) (region : Text)
    (envelope : KashierWebhookEnvelope) (signature : Text)
    → parse_envelope raw_body ≡ ok envelope
    → truthy header ≡ some signature
    → verify envelope.content signature ≡ true
    → env.is_failing 0 ≡ false
    → (w v : World) → is_logged kashier_provider_id envelope.content.transaction_id v ≡ true
    → (is_logged kashier_provider_id envelope.content.transaction_id
          (process_kashier_webhook verify message env raw_body header region w).1
        ≡ true)
      × (process_kashier_webhook verify message later raw_body header region v
          ≡ (if later.is_failing 0 then err infrastructure else ok tt, v))
unfolding process_kashier_webhook
process_kashier_webhook-again verify message env later raw_body header region envelope signature
      parsed signed verified f w v h =
    (
      logged verify message env raw_body header region envelope signature parsed signed verified w
          f,
      elim (Bool-cases (later.is_failing 0)) [
        | inl g ↦ rw (
          process_kashier_webhook, steps, parsed, signed, or_throw, throw_if, verified, attempt, g,
        )
        | inr g ↦ rw g (
            duplicate verify message later raw_body header region envelope signature parsed signed
              verified v g h)
      ],
    )

-- A delivery is either authentic, which is that its body parses, its signature header is there and the
-- provider confirms it; or it is refused with an error, and the world is the one of before.
pub process_kashier_webhook-authentic :
    (verify : KashierWebhookData → Text → Bool) (message : AppError → Text) (env : Env)
    (raw_body : Option ParsedWebhook) (header : Option Text) (region : Text) (w : World)
    → ((envelope : KashierWebhookEnvelope) × (signature : Text) × (parse_envelope raw_body
          ≡ ok envelope)
        × (truthy header ≡ some signature)
        × (verify envelope.content signature ≡ true))
      ⊎ ((e : AppError) × (process_kashier_webhook verify message env raw_body header region w
            ≡ (err e, w)))
unfolding process_kashier_webhook
process_kashier_webhook-authentic verify message env raw_body header region w =
    elim (Result-cases (parse_envelope raw_body)) [
      | inr (e, bad) ↦ inr (e, rw (process_kashier_webhook, steps, bad, lift) refl)
      | inl (envelope, parsed) ↦ elim (Option-cases (truthy header)) [
        | inl missing ↦ inr (
          invalid_webhook_signature,
          rw (process_kashier_webhook, steps, parsed, lift, missing, or_throw),
        )
        | inr (signature, signed) ↦ elim (Bool-cases (verify envelope.content signature)) [
          | inl verified ↦ inl (envelope, signature, parsed, signed, verified)
          | inr forged ↦ inr (
            invalid_webhook_signature,
            rw (process_kashier_webhook, steps, parsed, lift, signed, or_throw, throw_if, forged),
          )
        ]
      ]
    ]
