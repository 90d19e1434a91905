-- ===== src/Payment/Entity.antt =====
-- The ledger, the payment sessions and the log of webhooks: app/payment/enums.ts and the entities of
-- app/payment/entity, which are the rows of `transactions`, `payment_sessions` and
-- `payment_webhook_events`. A stored JSON payload is kept as the value that was stored.
use quickbite_order_service.Prelude.{ℕ, Option, Bool, true, false, List}
use quickbite_order_service.Prelude.Text.{Text}

pub data PaymentSessionStatus : Type 0 where
  initialized pending authorized captured failed expired cancelled : PaymentSessionStatus

pub data TransactionType : Type 0 where
  charge refund commission payout cod_collection adjustment : TransactionType

pub data TransactionMethod : Type 0 where
  online cod bank_transfer system : TransactionMethod

pub data TransactionStatus : Type 0 where
  pending succeeded failed reversed : TransactionStatus

-- PAYMENT_PROVIDER_IDS.
abbrev pub kashier_provider_id : ℕ
kashier_provider_id = 1

-- The body of a Kashier webhook, as far as the service reads it. `pay` and `success` stand for the
-- texts with which `event` and `data.status` are compared.
pub record KashierWebhookData : Type 0 where
  pub transaction_id : Text
  pub merchant_order_id : Text
  pub kashier_order_id : Text
  pub is_success : Bool
  pub signature_keys : List Text

pub record KashierWebhookEnvelope : Type 0 where
  pub is_pay : Bool
  pub content : KashierWebhookData

pub record PaymentSessionEntity : Type 0 where
  pub id : ℕ
  pub region : Text
  pub order_id : ℕ
  pub provider_id : ℕ
  pub provider_session_id : Text
  pub redirect_url : Text
  pub amount : ℕ
  pub currency : Text
  pub status : PaymentSessionStatus
  pub raw_init_payload : Text
  pub raw_last_payload : Option KashierWebhookEnvelope
  pub created_at : ℕ
  pub updated_at : ℕ

pub record TransactionEntity : Type 0 where
  pub id : ℕ
  pub region : Text
  pub order_id : Option ℕ
  pub transaction_type : TransactionType
  pub method : TransactionMethod
  pub provider_id : Option ℕ
  pub provider_reference_id : Option Text
  pub status : TransactionStatus
  pub amount : ℕ
  pub currency : Text
  pub src_acc_id : Option ℕ
  pub dst_acc_id : Option ℕ
  pub is_refunded : Bool
  pub refunded_payment_id : Option ℕ
  pub idempotency_key : Option Text
  pub created_at : ℕ
  pub updated_at : ℕ

pub record PaymentWebhookEventEntity : Type 0 where
  pub id : ℕ
  pub region : Text
  pub provider_id : ℕ
  pub provider_event_id : Text
  pub signature : Text
  pub payload : KashierWebhookEnvelope
  pub received_at : ℕ
  pub processed_at : Option ℕ
  pub process_error : Option Text

-- Still open: what `findActiveSessionByOrderId` looks for.
abbrev pub is_active : PaymentSessionStatus → Bool
is_active initialized = true
is_active PaymentSessionStatus.pending = true
is_active _ = false
