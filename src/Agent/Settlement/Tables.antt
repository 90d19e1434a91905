-- ===== src/Agent/Settlement/Tables.antt =====
-- What a settlement writes, table by table.
use quickbite_order_service.Prelude.{
  ℕ, ◌≡◌, refl, Bool, true, false, not, some, List, ltb, if◌then◌else◌, arith, ◌∙◌,
}
use quickbite_order_service.Prelude.Text.{Text}
use quickbite_order_service.Prelude.Rows.{
  find_where, update_where, insert_row, find_where-update_self,
}
use quickbite_order_service.Order.Enums.{delivered, cod, method_eq}
use quickbite_order_service.Order.Entity.{OrderEntity}
use quickbite_order_service.Order.Status.{delivered_at}
use quickbite_order_service.Order.Access.{number_or_zero}
use quickbite_order_service.Order.Repo.{
  has_public_id, with_status, set_stamp, update_order_commission,
}
use quickbite_order_service.Order.Repo.Laws.{update_order_status_lem}
use quickbite_order_service.Payment.Entity.{TransactionEntity, commission, adjustment}
use quickbite_order_service.Payment.Repo.{
  CreateTransactionInput, insert_transaction, create_transaction_idempotent,
}
use quickbite_order_service.Finance.Entity.{RestaurantBalanceEntity}
use quickbite_order_service.Finance.Repo.{upsert_balance, upsert_increment}
use quickbite_order_service.Agent.Repo.{InsertAgentEarningInput, insert_earning_row, insert_earning}
use quickbite_order_service.Agent.Settlement.{
  commission_key, service_fee_key, delivery_fee_key, cod_collection_input, platform_input,
  is_zero_ℤ, net_to_restaurant, delivered_payload, book_transactions, settle,
}
use quickbite_order_service.Events.Entity.{OutboxRow, order_aggregate, order_delivered}
use quickbite_order_service.Events.Outbox.{new_outbox_row, insert_outbox_event}
use quickbite_order_service.Store.{Env, World, Db, ok, when, modify_db}
use quickbite_order_service.Store.Laws.{steps}

-- One booking, made on a test.
abbrev pub book_if :
    Bool → Env → ℕ → CreateTransactionInput → List TransactionEntity → List TransactionEntity
book_if true env k input ts = insert_transaction env k input ts
book_if false env k input ts = ts

abbrev pub commission_input : Text → OrderEntity → ℕ → CreateTransactionInput
commission_input region order fee =
    platform_input region order commission fee (commission_key order.public_id)

abbrev pub service_fee_input : Text → OrderEntity → CreateTransactionInput
service_fee_input region order =
    platform_input region order adjustment order.service_fee (service_fee_key order.public_id)

abbrev pub delivery_fee_input : Text → OrderEntity → CreateTransactionInput
delivery_fee_input region order =
    platform_input region order adjustment order.delivery_fee (delivery_fee_key order.public_id)

-- The ledger after the bookings of a settlement.
abbrev pub ledger_after :
    Env → Text → OrderEntity → ℕ → List TransactionEntity → List TransactionEntity
ledger_after env region order fee ts =
    book_if (ltb 0 order.delivery_fee) env 3 (delivery_fee_input region order) (
      book_if (ltb 0 order.service_fee) env 2 (service_fee_input region order) (
        book_if (ltb 0 fee) env 1 (commission_input region order fee) (
          book_if (method_eq order.payment_method cod) env 0 (cod_collection_input region order)
            ts)))

abbrev pub balances_after :
    Env → Text → OrderEntity → ℕ → List RestaurantBalanceEntity → List RestaurantBalanceEntity
balances_after env region order fee bs =
    let net = net_to_restaurant order fee in
    if not (is_zero_ℤ net)
    then upsert_balance env.now order.restaurant_id region order.currency net bs
    else bs

abbrev pub earning_input : Text → OrderEntity → ℕ → InsertAgentEarningInput
earning_input region order earning = record {
  region = region;
  agent_id = number_or_zero order.delivery_agent_id;
  order_id = order.id;
  amount = earning;
  currency = order.currency;
}

-- The order with its commission, and delivered.
abbrev pub with_commission : ℕ → ℕ → OrderEntity → OrderEntity
with_commission now fee o = record o { commission = fee; updated_at = now }

abbrev pub with_delivery : ℕ → OrderEntity → OrderEntity
with_delivery now o = record o { status = delivered; delivered_at = some now; updated_at = now }

abbrev pub settled : Env → ℕ → OrderEntity → OrderEntity
settled env fee o = with_delivery env.now (with_commission env.now fee o)

abbrev pub delivered_row : Env → OrderEntity → ℕ → ℕ → OutboxRow
delivered_row env u agent_id fee = new_outbox_row env 5 (record {
  aggregate_type = order_aggregate;
  aggregate_id = u.public_id;
  event_type = order_delivered;
  payload = delivered_payload env u agent_id fee;
})

abbrev pub orders_after : Env → Text → ℕ → List OrderEntity → List OrderEntity
orders_after env public_id fee orders =
    update_where (has_public_id public_id) (with_delivery env.now)
      (update_where (has_public_id public_id) (with_commission env.now fee) orders)

abbrev pub tables_after : Env → Text → Text → OrderEntity → ℕ → ℕ → ℕ → Db → Db
tables_after env public_id region order agent_id fee earning db = record db {
  orders = orders_after env public_id fee db.orders;
  transactions = ledger_after env region order fee db.transactions;
  restaurant_balances = balances_after env region order fee db.restaurant_balances;
  agent_earnings = insert_earning_row env 4 (earning_input region order earning) db.agent_earnings;
  events_outbox =
      insert_row (delivered_row env (settled env fee order) agent_id fee) db.events_outbox;
}

-- An update of the tables that is made only on a test.
when_modify :
    (b : Bool) (f : Db → Db) (w : World)
    → when b (modify_db f) w ≡ (ok tt, record w { db = if b then f w.db else w.db })
when_modify true f w = refl
when_modify false f w = refl

book_transactions_lem :
    (env : Env) (region : Text) (order : OrderEntity) (fee : ℕ) (w : World)
    → book_transactions env region order fee w ≡ (
      ok tt,
      record w {
        db = record w.db { transactions = ledger_after env region order fee w.db.transactions };
      },
    )
unfolding book_transactions create_transaction_idempotent
book_transactions_lem env region order fee w = ground arith

pub commissioned :
    (now : ℕ) (public_id : Text) (fee : ℕ) (orders : List OrderEntity) (order : OrderEntity)
    → find_where (has_public_id public_id) orders ≡ some order
    → find_where
        (has_public_id public_id)
        (update_where (has_public_id public_id) (with_commission now fee) orders)
      ≡ some (with_commission now fee order)
commissioned now public_id fee orders order h =
    find_where-update_self (has_public_id public_id) (with_commission now fee) orders (λ o e. e)
    ∙ rw h

-- The tables before the last two statements of the settlement.
abbrev tables_booked : Env → Text → Text → OrderEntity → ℕ → ℕ → Db → Db
tables_booked env public_id region order fee earning db = record db {
  orders = update_where (has_public_id public_id) (with_commission env.now fee) db.orders;
  transactions = ledger_after env region order fee db.transactions;
  restaurant_balances = balances_after env region order fee db.restaurant_balances;
  agent_earnings = insert_earning_row env 4 (earning_input region order earning) db.agent_earnings;
}

upsert_lem :
    (env : Env) (region : Text) (order : OrderEntity) (fee : ℕ) (w : World)
    → when
        (not (is_zero_ℤ (net_to_restaurant order fee)))
        (upsert_increment env order.restaurant_id region order.currency
          (net_to_restaurant order fee))
        w
      ≡ (
        ok tt,
        record w {
          db = record w.db {
            restaurant_balances = balances_after env region order fee w.db.restaurant_balances;
          };
        },
      )
unfolding upsert_increment
upsert_lem env region order fee w = ground arith

pub settle_lem :
    (env : Env) (public_id region : Text) (order : OrderEntity) (agent_id fee earning : ℕ)
    (w : World)
    → find_where (has_public_id public_id) w.db.orders ≡ some order
    → settle env public_id region order agent_id fee earning w ≡ (
      ok (settled env fee order),
      record w { db = tables_after env public_id region order agent_id fee earning w.db },
    )
unfolding settle with_status set_stamp update_order_commission insert_earning insert_outbox_event
settle_lem env public_id region order agent_id fee earning w h = rw (
  settle,
  steps,
  update_order_commission,
  book_transactions_lem,
  upsert_lem,
  insert_earning,
  update_order_status_lem env public_id delivered (some delivered_at)
      (with_commission env.now fee order)
      (record w { db = tables_booked env public_id region order fee earning w.db })
      (commissioned env.now public_id fee w.db.orders order h),
)
