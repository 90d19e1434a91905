-- ===== src/Finance/Repo.antt =====
-- The statements on `restaurant_balances`: app/finance/repository/restaurant-balance.repo.ts.
pub mod Laws
use quickbite_order_service.Prelude.{
  ℕ, Bool, ◌&&◌, Option, none, some, List, [], ◌∷◌, ◌==◌, if◌then◌else◌, is_some,
}
use quickbite_order_service.Prelude.Int.{ℤ, pos, ◌+ℤ◌, ◌-ℤ◌, leb_ℤ}
use quickbite_order_service.Prelude.Text.{Text, text_eq}
use quickbite_order_service.Prelude.Rows.{
  find_where, select_where, update_where, first_returned, insert_row,
}
use quickbite_order_service.Finance.Entity.{RestaurantBalanceEntity}
use quickbite_order_service.Store.{Db, World, Env, Action, Result, ok, query, modify_db}

-- The primary key of a balance.
abbrev pub has_account : ℕ → Text → RestaurantBalanceEntity → Bool
has_account restaurant_id currency b =
    b.restaurant_id == restaurant_id && text_eq b.currency currency

unfoldable pub find_by_restaurant : ℕ → Action (List RestaurantBalanceEntity)
find_by_restaurant restaurant_id = query (λ db.
    select_where (λ (b : RestaurantBalanceEntity). b.restaurant_id == restaurant_id)
      db.restaurant_balances)

unfoldable pub increased : ℕ → ℤ → RestaurantBalanceEntity → RestaurantBalanceEntity
increased now delta b = record b { balance = b.balance +ℤ delta; updated_at = now }

-- The table after `INSERT … ON CONFLICT (restaurant_id, currency) DO UPDATE SET balance = balance +
-- EXCLUDED.balance`.
unfoldable pub upsert_balance :
    ℕ → ℕ → Text → Text → ℤ → List RestaurantBalanceEntity → List RestaurantBalanceEntity
upsert_balance now restaurant_id region currency delta bs =
    let p = has_account restaurant_id currency in
    if is_some (find_where p bs)
    then update_where p (increased now delta) bs
    else insert_row
        (record {
          restaurant_id = restaurant_id;
          region = region;
          currency = currency;
          balance = delta;
          updated_at = now;
        })
        bs

abbrev pub set_balances : List RestaurantBalanceEntity → Db → Db
set_balances rows db = record db { restaurant_balances = rows }

unfoldable pub upsert_increment : Env → ℕ → Text → Text → ℤ → Action (Unit {0})
upsert_increment env restaurant_id region currency delta = modify_db (λ db.
    set_balances (upsert_balance env.now restaurant_id region currency delta db.restaurant_balances)
      db)

unfoldable pub decreased : ℕ → ℕ → RestaurantBalanceEntity → RestaurantBalanceEntity
decreased now amount b = record b { balance = b.balance -ℤ pos amount; updated_at = now }

-- `WHERE restaurant_id, currency AND balance >= amount`.
abbrev pub can_pay : ℕ → Text → ℕ → RestaurantBalanceEntity → Bool
can_pay restaurant_id currency amount b =
    has_account restaurant_id currency b && leb_ℤ (pos amount) b.balance

-- `none` where the balance does not cover the amount.
unfoldable pub decrement_if_sufficient :
    Env → ℕ → Text → ℕ → Action (Option RestaurantBalanceEntity)
decrement_if_sufficient env restaurant_id currency amount w =
    let p = can_pay restaurant_id currency amount in
    let f = decreased env.now amount in
    (
      ok (first_returned p f w.db.restaurant_balances),
      record w { db = set_balances (update_where p f w.db.restaurant_balances) w.db },
    )
