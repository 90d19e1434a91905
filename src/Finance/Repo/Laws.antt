-- ===== src/Finance/Repo/Laws.antt =====
-- Balances as a function of their key, and how the two writes change it.
use quickbite_order_service.Prelude.{
  ℕ, ◌≡◌, refl, Option, none, some, List, arith, Option-cases, inl, inr,
}
use quickbite_order_service.Prelude.Int.{ℤ, pos, ◌+ℤ◌, +ℤ_zero_left}
use quickbite_order_service.Prelude.Text.{Text, text_eq_refl}
use quickbite_order_service.Prelude.Rows.{find_where, find_where-update_self, find_where-append}
use quickbite_order_service.Finance.Entity.{RestaurantBalanceEntity}
use quickbite_order_service.Finance.Repo.{has_account, increased, upsert_balance}

abbrev amount_of : Option RestaurantBalanceEntity → ℤ
amount_of none = pos 0
amount_of (some b) = b.balance

-- The balance of a restaurant in a currency; a restaurant with no row has nothing.
abbrev pub balance_of : ℕ → Text → List RestaurantBalanceEntity → ℤ
balance_of restaurant_id currency bs =
    amount_of (find_where (has_account restaurant_id currency) bs)

-- An increment raises the balance by its amount, also where it makes the row.
pub balance_of-upsert :
    (now r : ℕ) (region c : Text) (delta : ℤ) (bs : List RestaurantBalanceEntity)
    → balance_of r c (upsert_balance now r region c delta bs) ≡ balance_of r c bs +ℤ delta
unfolding upsert_balance increased
balance_of-upsert now r region c delta bs = elim (Option-cases (find_where (has_account r c) bs)) [
  | inl e ↦
      rw (e, upsert_balance)
        (rw (find_where-append (has_account r c) bs, e)
          (ground (arith, text_eq_refl c, +ℤ_zero_left delta)))
  | inr (b, e) ↦
      rw (e, upsert_balance)
        (rw (find_where-update_self (has_account r c) (increased now delta) bs (λ x h. h), e) refl)
]
