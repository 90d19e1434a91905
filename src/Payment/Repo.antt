-- ===== src/Payment/Repo.antt =====
-- The statements on `transactions`, `payment_sessions` and `payment_webhook_events`: the
-- repositories of app/payment/repository. A key that is NULL is equal to no key.
use quickbite_order_service.Prelude.{
  ℕ, Bool, false, ◌&&◌, Option, none, some, List, [], ◌∷◌, ◌==◌, leb, if◌then◌else◌, is_some,
}
use quickbite_order_service.Prelude.Text.{Text, text_eq}
use quickbite_order_service.Prelude.Rows.{
  find_where, select_where, update_where, first_returned, insert_row,
}
use quickbite_order_service.Order.Entity.{OrderEntity}
use quickbite_order_service.Order.Repo.{or_type_error}
use quickbite_order_service.Payment.Entity.{
  PaymentSessionStatus, TransactionType, TransactionMethod, TransactionStatus, PaymentSessionEntity,
  TransactionEntity, PaymentWebhookEventEntity, KashierWebhookEnvelope, is_active,
}
use quickbite_order_service.Store.{Db, Env, Action, ok, err, unique_violation, query, modify_db}

pub record CreateTransactionInput : Type 0 where
  pub region : Text
  pub order_id : Option ℕ
  pub transaction_type : TransactionType
  pub method : TransactionMethod
  pub provider_id : Option ℕ
  pub provider_reference_id : Option Text
  pub status : TransactionStatus
  pub amount : ℕ
  pub currency : Text
  pub src_acc_id : Option ℕ
  pub dst_acc_id : Option ℕ
  pub idempotency_key : Option Text

-- The row that the `k`-th insert of a call makes.
unfoldable pub new_transaction : Env → ℕ → CreateTransactionInput → TransactionEntity
new_transaction env k input = record {
  id = env.next_id k;
  region = input.region;
  order_id = input.order_id;
  transaction_type = input.transaction_type;
  method = input.method;
  provider_id = input.provider_id;
  provider_reference_id = input.provider_reference_id;
  status = input.status;
  amount = input.amount;
  currency = input.currency;
  src_acc_id = input.src_acc_id;
  dst_acc_id = input.dst_acc_id;
  is_refunded = false;
  refunded_payment_id = none;
  idempotency_key = input.idempotency_key;
  created_at = env.now;
  updated_at = env.now;
}

-- The row stands under the key.
abbrev pub has_key : Text → TransactionEntity → Bool
has_key key t = elim t.idempotency_key [ none ↦ false | some k ↦ text_eq k key ]

-- `uq_transactions_idempotency_key` forbids the row.
unfoldable pub key_taken : Option Text → List TransactionEntity → Bool
key_taken none ts = false
key_taken (some key) ts = is_some (find_where (has_key key) ts)

abbrev pub set_transactions : List TransactionEntity → Db → Db
set_transactions rows db = record db { transactions = rows }

unfoldable pub create_transaction : Env → ℕ → CreateTransactionInput → Action TransactionEntity
create_transaction env k input w =
    let t = new_transaction env k input in
    if key_taken input.idempotency_key w.db.transactions
    then (err unique_violation, w)
    else (ok t, record w { db = set_transactions (insert_row t w.db.transactions) w.db })

-- The ledger after `INSERT … ON CONFLICT (idempotency_key) DO NOTHING`.
unfoldable pub insert_transaction :
    Env → ℕ → CreateTransactionInput → List TransactionEntity → List TransactionEntity
insert_transaction env k input ts =
    if key_taken input.idempotency_key ts then ts else insert_row (new_transaction env k input) ts

-- `createTransactionIdempotent`; no caller reads the row that it returns.
unfoldable pub create_transaction_idempotent : Env → ℕ → CreateTransactionInput → Action (Unit {0})
create_transaction_idempotent env k input =
    modify_db (λ db. set_transactions (insert_transaction env k input db.transactions) db)

abbrev pub restaurant_of : Option ℕ → List OrderEntity → Option ℕ
restaurant_of none os = none
restaurant_of (some id) os = elim (find_where (λ (o : OrderEntity). o.id == id) os) [
  | none ↦ none
  | some o ↦ some o.restaurant_id
]

-- The transaction with its order's restaurant, by a left join.
unfoldable pub find_transaction_with_restaurant : ℕ → Action (Option (TransactionEntity × Option ℕ))
find_transaction_with_restaurant id = query (λ db.
    elim (find_where (λ (t : TransactionEntity). t.id == id) db.transactions) [
      | none ↦ none
      | some t ↦ some (t, restaurant_of t.order_id db.orders)
    ])

pub record CreateSessionRowInput : Type 0 where
  pub region : Text
  pub order_id : ℕ
  pub provider_id : ℕ
  pub provider_session_id : Text
  pub redirect_url : Text
  pub amount : ℕ
  pub currency : Text
  pub status : PaymentSessionStatus
  pub raw_init_payload : Text

unfoldable pub new_session : Env → CreateSessionRowInput → PaymentSessionEntity
new_session env input = record {
  id = env.next_id 0;
  region = input.region;
  order_id = input.order_id;
  provider_id = input.provider_id;
  provider_session_id = input.provider_session_id;
  redirect_url = input.redirect_url;
  amount = input.amount;
  currency = input.currency;
  status = input.status;
  raw_init_payload = input.raw_init_payload;
  raw_last_payload = none;
  created_at = env.now;
  updated_at = env.now;
}

abbrev pub set_sessions : List PaymentSessionEntity → Db → Db
set_sessions rows db = record db { payment_sessions = rows }

abbrev pub has_provider_session : Text → PaymentSessionEntity → Bool
has_provider_session id s = text_eq s.provider_session_id id

-- `uq_payment_sessions_provider_session_id` refuses a second session of that id.
unfoldable pub create_session : Env → CreateSessionRowInput → Action PaymentSessionEntity
create_session env input w =
    let s = new_session env input in
    if is_some (find_where (has_provider_session input.provider_session_id) w.db.payment_sessions)
    then (err unique_violation, w)
    else (ok s, record w { db = set_sessions (insert_row s w.db.payment_sessions) w.db })

abbrev pub is_open_for : ℕ → PaymentSessionEntity → Bool
is_open_for order_id s = s.order_id == order_id && is_active s.status

abbrev pub newer_session :
    PaymentSessionEntity → Option PaymentSessionEntity → Option PaymentSessionEntity
newer_session s none = some s
newer_session s (some t) = if leb s.id t.id then some t else some s

-- `orderBy("id", "desc").first()`.
unfoldable pub newest_session : List PaymentSessionEntity → Option PaymentSessionEntity
newest_session [] = none
newest_session (s ∷ ss) = newer_session s (newest_session ss)

unfoldable pub find_active_session_by_order_id : ℕ → Action (Option PaymentSessionEntity)
find_active_session_by_order_id order_id =
    query (λ db. newest_session (select_where (is_open_for order_id) db.payment_sessions))

abbrev pub has_session_id : ℕ → PaymentSessionEntity → Bool
has_session_id id s = s.id == id

unfoldable pub with_session_status :
    PaymentSessionStatus → KashierWebhookEnvelope → ℕ → PaymentSessionEntity → PaymentSessionEntity
with_session_status status payload now s = record s {
  status = status;
  raw_last_payload = some payload;
  updated_at = now;
}

unfoldable pub update_session :
    Env → ℕ → PaymentSessionStatus → KashierWebhookEnvelope → Action PaymentSessionEntity
update_session env id status payload w =
    let f = with_session_status status payload env.now in
    (
      or_type_error (first_returned (has_session_id id) f w.db.payment_sessions),
      record w {
        db = set_sessions (update_where (has_session_id id) f w.db.payment_sessions) w.db;
      },
    )

pub record RecordWebhookInput : Type 0 where
  pub region : Text
  pub provider_id : ℕ
  pub provider_event_id : Text
  pub signature : Text
  pub payload : KashierWebhookEnvelope

unfoldable pub new_webhook_event : Env → RecordWebhookInput → PaymentWebhookEventEntity
new_webhook_event env input = record {
  id = env.next_id 0;
  region = input.region;
  provider_id = input.provider_id;
  provider_event_id = input.provider_event_id;
  signature = input.signature;
  payload = input.payload;
  received_at = env.now;
  processed_at = none;
  process_error = none;
}

-- The unique key of a webhook event.
abbrev pub has_event : ℕ → Text → PaymentWebhookEventEntity → Bool
has_event provider_id event_id e =
    e.provider_id == provider_id && text_eq e.provider_event_id event_id

abbrev pub set_webhook_events : List PaymentWebhookEventEntity → Db → Db
set_webhook_events rows db = record db { payment_webhook_events = rows }

-- The row that was inserted, or `none` where the event is already there.
unfoldable pub record_webhook_or_skip :
    Env → RecordWebhookInput → Action (Option PaymentWebhookEventEntity)
record_webhook_or_skip env input w =
    let e = new_webhook_event env input in
    if is_some
      (find_where (has_event input.provider_id input.provider_event_id) w.db.payment_webhook_events)
    then (ok none, w)
    else (
      ok (some e),
      record w { db = set_webhook_events (insert_row e w.db.payment_webhook_events) w.db },
    )

abbrev pub has_event_id : ℕ → PaymentWebhookEventEntity → Bool
has_event_id id e = e.id == id

unfoldable pub mark_webhook_processed : Env → ℕ → Option Text → Action (Unit {0})
mark_webhook_processed env id error = modify_db (λ db.
    set_webhook_events
      (update_where (has_event_id id)
        (λ e. record e { processed_at = some env.now; process_error = error })
        db.payment_webhook_events)
      db)
