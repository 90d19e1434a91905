-- ===== src/Finance/Service.antt =====
-- `FinanceService` of app/finance/service/finance.service.ts, with the balance and payout responses of
-- app/finance/dto. A payout is a transfer that was made outside; the service books it.
pub mod Payout
use quickbite_order_service.Prelude.{ℕ, zero, suc, Option, none, some, List, map}
use quickbite_order_service.Prelude.Int.{ℤ}
use quickbite_order_service.Prelude.Text.{Text}
use quickbite_order_service.Order.Repo.{find_owner_id_for_restaurant}
use quickbite_order_service.Payment.Entity.{
  TransactionEntity, TransactionStatus, payout, bank_transfer, succeeded,
}
use quickbite_order_service.Payment.Repo.{CreateTransactionInput, create_transaction}
use quickbite_order_service.Finance.Entity.{RestaurantBalanceEntity}
use quickbite_order_service.Finance.Repo.{find_by_restaurant, decrement_if_sufficient}
use quickbite_order_service.Store.{
  Env, Action, insufficient_balance, restaurant_not_found, transaction, or_throw, pure, ◌>>=◌, ◌>>◌,
}

-- The validated body; the note is not read.
pub record CreatePayoutRequest : Type 0 where
  pub restaurant_id : ℕ
  pub amount : ℕ
  pub currency : Text
  pub provider_reference_id : Text

pub record PayoutResponse : Type 0 where
  pub id : ℕ
  pub amount : ℕ
  pub currency : Text
  pub status : TransactionStatus
  pub provider_reference_id : Option Text
  pub created_at : ℕ

pub record RestaurantBalanceResponse : Type 0 where
  pub restaurant_id : ℕ
  pub balances : List (Text × ℤ)
  pub as_of : ℕ

unfoldable pub payout_response : TransactionEntity → PayoutResponse
payout_response t = record {
  id = t.id;
  amount = t.amount;
  currency = t.currency;
  status = t.status;
  provider_reference_id = t.provider_reference_id;
  created_at = t.created_at;
}

unfoldable pub balance_response : Env → ℕ → List RestaurantBalanceEntity → RestaurantBalanceResponse
balance_response env restaurant_id rows = record {
  restaurant_id = restaurant_id;
  balances = map (λ (b : RestaurantBalanceEntity). (b.currency, b.balance)) rows;
  as_of = env.now;
}

unfoldable pub get_balance : Env → ℕ → Action RestaurantBalanceResponse
get_balance env restaurant_id = do
  rows ← find_by_restaurant restaurant_id
  pure (balance_response env restaurant_id rows)

-- `if (!ownerId)`: a missing owner, or the number 0.
abbrev pub truthy_id : Option ℕ → Option ℕ
truthy_id none = none
truthy_id (some zero) = none
truthy_id (some (suc n)) = some (suc n)

unfoldable pub payout_input : CreatePayoutRequest → Text → Text → ℕ → CreateTransactionInput
payout_input body region idempotency_key owner_id = record {
  region = region;
  order_id = none;
  transaction_type = payout;
  method = bank_transfer;
  provider_id = none;
  provider_reference_id = some body.provider_reference_id;
  status = succeeded;
  amount = body.amount;
  currency = body.currency;
  src_acc_id = none;
  dst_acc_id = some owner_id;
  idempotency_key = some idempotency_key;
}

-- The body of the transaction.
unfoldable pub pay_out : Env → CreatePayoutRequest → Text → Text → ℕ → Action TransactionEntity
pay_out env body region idempotency_key owner_id = do
  decremented ← decrement_if_sufficient env body.restaurant_id body.currency body.amount
  or_throw decremented insufficient_balance
  create_transaction env 0 (payout_input body region idempotency_key owner_id)

unfoldable pub record_payout : Env → CreatePayoutRequest → Text → Text → Action PayoutResponse
record_payout env body region idempotency_key = do
  found ← find_owner_id_for_restaurant body.restaurant_id
  owner_id ← or_throw (truthy_id found) restaurant_not_found
  tx ← transaction env (pay_out env body region idempotency_key owner_id)
  pure (payout_response tx)
