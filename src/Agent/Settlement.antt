-- ===== src/Agent/Settlement.antt =====
-- `SettlementService.settleDelivered` of app/agent/service/settlement.service.ts. `commission_bps`
-- is what core answers for the branch, `none` where the call fails; the share of the agent is the
-- environment's AGENT_EARNING_SHARE_BPS. Both products stay far below 2 ^ 53 for INT amounts, so
-- that `Math.floor` of the quotient is the quotient of the natural numbers.
pub mod Effect
pub mod Tables
pub mod Money
pub mod Again
pub mod Bypass
use quickbite_order_service.Prelude.{
  ℕ, zero, suc, ◌*◌, ◌/◌, Bool, true, false, not, Option, none, some, List, ◌++◌, ltb, ◌==◌,
  if◌then◌else◌,
}
use quickbite_order_service.Prelude.Int.{ℤ, pos, negsuc, ◌-ℤ◌}
use quickbite_order_service.Prelude.Text.{Text, codes, text_eq}
use quickbite_order_service.Order.Enums.{OrderStatus, delivered, PaymentMethod, cod, method_eq}
use quickbite_order_service.Order.Entity.{OrderEntity}
use quickbite_order_service.Order.Status.{delivered_at}
use quickbite_order_service.Order.Access.{is_number, number_or_zero}
use quickbite_order_service.Order.Repo.{
  find_order_by_public_id, update_order_status, update_order_commission,
}
use quickbite_order_service.Payment.Entity.{
  TransactionType, TransactionMethod, TransactionStatus, cod_collection, commission, adjustment,
  system, succeeded,
}
use quickbite_order_service.Payment.Repo.{CreateTransactionInput, create_transaction_idempotent}
use quickbite_order_service.Finance.Repo.{upsert_increment}
use quickbite_order_service.Agent.Repo.{insert_earning}
use quickbite_order_service.Events.Entity.{
  Payload, delivered_order, OrderDeliveredPayload, order_aggregate, order_delivered,
}
use quickbite_order_service.Events.Outbox.{insert_outbox_event}
use quickbite_order_service.Agent.Presence.{clear_busy}
use quickbite_order_service.Store.{
  Env, World, Redis, Action, Result, order_not_found, not_your_task, transaction, or_throw,
  throw_if, when, emit, modify_redis, attempt, pure, ◌>>=◌, ◌>>◌, customer_room, branch_room,
  status_changed,
}

-- The share of an amount in basis points.
unfoldable pub share_of : ℕ → ℕ → ℕ
share_of amount bps = (amount * bps) / 10000

-- `Number(branch.commissionBps ?? 0)`, and 0 where the branch cannot be fetched.
abbrev pub bps_or_zero : Option ℕ → ℕ
bps_or_zero none = 0
bps_or_zero (some bps) = bps

abbrev pub cod_collect_key : Text → Text
cod_collect_key id = codes "cod-collect:" ++ id

abbrev pub commission_key : Text → Text
commission_key id = codes "commission:" ++ id

abbrev pub service_fee_key : Text → Text
service_fee_key id = codes "service-fee:" ++ id

abbrev pub delivery_fee_key : Text → Text
delivery_fee_key id = codes "delivery-fee:" ++ id

-- The customer's cash, collected for the restaurant's owner.
unfoldable pub cod_collection_input : Text → OrderEntity → CreateTransactionInput
cod_collection_input region order = record {
  region = region;
  order_id = some order.id;
  transaction_type = cod_collection;
  method = TransactionMethod.cod;
  provider_id = none;
  provider_reference_id = none;
  status = succeeded;
  amount = order.total;
  currency = order.currency;
  src_acc_id = some order.customer_id;
  dst_acc_id = some order.restaurant_owner_id;
  idempotency_key = some (cod_collect_key order.public_id);
}

-- A transfer from the owner to the platform, which has no account.
unfoldable pub platform_input :
    Text → OrderEntity → TransactionType → ℕ → Text → CreateTransactionInput
platform_input region order kind amount key = record {
  region = region;
  order_id = some order.id;
  transaction_type = kind;
  method = system;
  provider_id = none;
  provider_reference_id = none;
  status = succeeded;
  amount = amount;
  currency = order.currency;
  src_acc_id = some order.restaurant_owner_id;
  dst_acc_id = none;
  idempotency_key = some key;
}

abbrev pub is_zero_ℤ : ℤ → Bool
is_zero_ℤ (pos zero) = true
is_zero_ℤ (pos (suc n)) = false
is_zero_ℤ (negsuc n) = false

-- `subtotal - commission`, which may be negative.
unfoldable pub net_to_restaurant : OrderEntity → ℕ → ℤ
net_to_restaurant order fee = pos order.subtotal -ℤ pos fee

abbrev pub or_now : Option ℕ → ℕ → ℕ
or_now none now = now
or_now (some t) now = t

unfoldable pub delivered_payload : Env → OrderEntity → ℕ → ℕ → Payload
delivered_payload env updated agent_id fee = delivered_order (record {
  order_id = updated.public_id;
  region = updated.region;
  country_code = updated.country_code;
  restaurant_id = updated.restaurant_id;
  branch_id = updated.branch_id;
  customer_id = updated.customer_id;
  delivery_agent_id = agent_id;
  total = updated.total;
  subtotal = updated.subtotal;
  delivery_fee = updated.delivery_fee;
  commission = fee;
  currency = updated.currency;
  payment_method = updated.payment_method;
  placed_at = updated.created_at;
  delivered_at = or_now updated.delivered_at env.now;
})

-- The ledger rows of a settlement, each with its own test.
unfoldable pub book_transactions : Env → Text → OrderEntity → ℕ → Action (Unit {0})
book_transactions env region order fee = do
  when (method_eq order.payment_method cod)
      (create_transaction_idempotent env 0 (cod_collection_input region order))
  when (ltb 0 fee) (
      create_transaction_idempotent env 1
        (platform_input region order commission fee (commission_key order.public_id)))
  when (ltb 0 order.service_fee) (
      create_transaction_idempotent env 2 (
        platform_input region order adjustment order.service_fee (service_fee_key order.public_id)))
  when (ltb 0 order.delivery_fee) (
      create_transaction_idempotent env 3 (
        platform_input region order adjustment order.delivery_fee
          (delivery_fee_key order.public_id)))

-- The body of the transaction, with the commission `fee` and the agent's `earning`.
unfoldable pub settle : Env → Text → Text → OrderEntity → ℕ → ℕ → ℕ → Action OrderEntity
settle env public_id region order agent_id fee earning = do
  update_order_commission env public_id fee
  book_transactions env region order fee
  when (not (is_zero_ℤ (net_to_restaurant order fee)))
      (upsert_increment env order.restaurant_id region order.currency (net_to_restaurant order fee))
  insert_earning env 4 (record {
    region = region;
    agent_id = number_or_zero order.delivery_agent_id;
    order_id = order.id;
    amount = earning;
    currency = order.currency;
  })
  updated ← update_order_status env public_id delivered (some delivered_at)
  insert_outbox_event env 5 (record {
    aggregate_type = order_aggregate;
    aggregate_id = updated.public_id;
    event_type = order_delivered;
    payload = delivered_payload env updated agent_id fee;
  })
  pure updated

-- The drop of the claim lock.
abbrev pub drop_claim : Text → Redis → Redis
drop_claim public_id r = record r {
  claim = λ id. if text_eq id public_id then none else r.claim id;
}

unfoldable pub settle_delivered : Env → ℕ → Option ℕ → Text → ℕ → Text → Action OrderEntity
settle_delivered env share_bps commission_bps public_id agent_id region = do
  order ← or_throw (← find_order_by_public_id public_id) order_not_found
  throw_if (not (is_number order.delivery_agent_id agent_id)) not_your_task
  let fee = share_of order.subtotal (bps_or_zero commission_bps)
  let earning = share_of order.delivery_fee share_bps
  updated ← transaction env (settle env public_id region order agent_id fee earning)
  attempt env 0 (clear_busy agent_id)
  attempt env 1 (modify_redis (drop_claim public_id))
  emit (customer_room updated.customer_id) (status_changed updated)
  emit (branch_room updated.branch_id) (status_changed updated)
  pure updated
