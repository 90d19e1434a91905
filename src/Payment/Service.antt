-- ===== src/Payment/Service.antt =====
-- `PaymentService` of app/payment/service/payment.service.ts. What the provider answers to a request
-- for a session is an argument, and so is the time that a session lives.
use quickbite_order_service.Prelude.{ℕ, ◌+◌, Bool, false, not, Option, none, some, ◌==◌}
use quickbite_order_service.Prelude.Text.{Text}
use quickbite_order_service.Order.Entity.{OrderEntity}
use quickbite_order_service.Payment.Entity.{
  PaymentSessionEntity, TransactionEntity, kashier_provider_id, initialized,
}
use quickbite_order_service.Payment.Repo.{
  CreateSessionRowInput, create_session, find_active_session_by_order_id,
  find_transaction_with_restaurant,
}
use quickbite_order_service.Store.{
  Env, Action, Result, ok, err, payment_provider_unavailable, payment_not_found, un_authorised,
  lift, pure, throw_if, or_throw, ◌>>=◌, ◌>>◌,
}

-- What `createSession` of the provider returns.
pub record ProviderSession : Type 0 where
  pub provider_session_id : Text
  pub redirect_url : Text
  pub expires_at : Option ℕ
  pub raw_response : Text

pub record InitOnlinePaymentResult : Type 0 where
  pub session : PaymentSessionEntity
  pub expires_at : ℕ

-- Every failure of the provider becomes one error.
abbrev pub provider_answer : {A : Type 0} → Result A → Result A
provider_answer (ok a) = ok a
provider_answer (err e) = err payment_provider_unavailable

abbrev pub expires_or : Option ℕ → ℕ → ℕ
expires_or none t = t
expires_or (some e) t = e

unfoldable pub session_input : OrderEntity → ProviderSession → CreateSessionRowInput
session_input order resp = record {
  region = order.region;
  order_id = order.id;
  provider_id = kashier_provider_id;
  provider_session_id = resp.provider_session_id;
  redirect_url = resp.redirect_url;
  amount = order.total;
  currency = order.currency;
  status = initialized;
  raw_init_payload = resp.raw_response;
}

unfoldable pub new_online_payment :
    Env → ℕ → Result ProviderSession → OrderEntity → Action InitOnlinePaymentResult
new_online_payment env session_ttl_ms answer order = do
  resp ← lift (provider_answer answer)
  session ← create_session env (session_input order resp)
  pure (record {
    session = session;
    expires_at = expires_or resp.expires_at (env.now + session_ttl_ms);
  })

abbrev pub surface_or_new :
    Env
    → ℕ
    → Result ProviderSession
    → OrderEntity
    → Option PaymentSessionEntity
    → Action InitOnlinePaymentResult
surface_or_new env session_ttl_ms answer order (some existing) =
    pure (record { session = existing; expires_at = existing.created_at + session_ttl_ms })
surface_or_new env session_ttl_ms answer order none =
    new_online_payment env session_ttl_ms answer order

unfoldable pub init_online_payment :
    Env → ℕ → Result ProviderSession → OrderEntity → Action InitOnlinePaymentResult
init_online_payment env session_ttl_ms answer order = do
  existing ← find_active_session_by_order_id order.id
  surface_or_new env session_ttl_ms answer order existing

-- A transaction with no order belongs to no restaurant.
abbrev pub is_of_other : Option ℕ → ℕ → Bool
is_of_other none restaurant_id = false
is_of_other (some r) restaurant_id = not (r == restaurant_id)

unfoldable pub get_by_id : ℕ → ℕ → Action TransactionEntity
get_by_id payment_id restaurant_id = do
  found ← or_throw (← find_transaction_with_restaurant payment_id) payment_not_found
  throw_if (is_of_other found.1 restaurant_id) un_authorised
  pure found.0
