-- ===== src/Finance/Entity.antt =====
-- The running balance of a restaurant: app/finance/entity/restaurant-balance.entity.ts, the rows of
-- `restaurant_balances`, whose key is the restaurant with the currency.
use quickbite_order_service.Prelude.{ℕ}
use quickbite_order_service.Prelude.Int.{ℤ}
use quickbite_order_service.Prelude.Text.{Text}

pub record RestaurantBalanceEntity : Type 0 where
  pub restaurant_id : ℕ
  pub region : Text
  pub currency : Text
  pub balance : ℤ
  pub updated_at : ℕ
