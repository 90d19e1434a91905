-- ===== src/Finance/Service/Payout.antt =====
-- A payout: it is all or nothing, takes its amount from one balance, never overdraws, and is made once
-- for an idempotency key.
use quickbite_order_service.Prelude.{
  ℕ, ◌≡◌, ◌≢◌, refl, ◌⊎◌, Bool, true, false, none, some, List, [], ◌∷◌, arith, All, Bool-cases, inl,
  inr, leb, ◌≤◌, ◌+◌, ◌&&◌, if◌then◌else◌,
}
use quickbite_order_service.Prelude.Int.{
  ℤ, pos, ◌-ℤ◌, ◌≤ℤ◌, leb_ℤ, int_laws, -ℤ_parts, pos_part, neg_part,
}
use quickbite_order_service.Prelude.Text.{Text, text_eq_refl}
use quickbite_order_service.Prelude.Rows.{
  find_where, update_where, find_where-update_found, insert_row, is_some-find_where-insert,
  find_where_sound,
}
use quickbite_order_service.Order.Repo.{find_owner_id_for_restaurant, latest_of}
use quickbite_order_service.Payment.Entity.{TransactionEntity, payout, bank_transfer, succeeded}
use quickbite_order_service.Payment.Repo.{has_key, new_transaction, key_taken, create_transaction}
use quickbite_order_service.Finance.Entity.{RestaurantBalanceEntity}
use quickbite_order_service.Finance.Repo.{has_account, can_pay, decreased, decrement_if_sufficient}
use quickbite_order_service.Finance.Repo.Laws.{balance_of}
use quickbite_order_service.Finance.Service.{
  CreatePayoutRequest, PayoutResponse, payout_response, truthy_id, payout_input, pay_out,
  record_payout,
}
use quickbite_order_service.Store.{Env, World, Db, ok, err, AppError, transaction, or_throw}
use quickbite_order_service.Store.Laws.{Result-cases, steps, transaction-ok}

-- No restaurant owes the platform.
abbrev pub IsSolvent : Db → Type 0
IsSolvent db = All (λ (b : RestaurantBalanceEntity). pos 0 ≤ℤ b.balance) db.restaurant_balances

covers_lem : (p q : Bool) → p && q ≡ true → q ≡ true
covers_lem true q h = h
covers_lem false q h = cc

paid-solvent : (a : ℕ) (m : ℤ) → leb_ℤ (pos a) m ≡ true → pos 0 ≤ℤ (m -ℤ pos a)
paid-solvent a m h =
    let covered : a + neg_part m ≤ pos_part m + 0 = ground arith in
    omega (int_laws, -ℤ_parts m (pos a))

paid_row-solvent :
    (now r amount : ℕ) (c : Text) (b : RestaurantBalanceEntity)
    → pos 0 ≤ℤ b.balance
    → pos 0 ≤ℤ (if can_pay r c amount b then decreased now amount b else b).balance
unfolding decreased
paid_row-solvent now r amount c b h = elim (Bool-cases (can_pay r c amount b)) [
  | inl e ↦ rw e (paid-solvent amount b.balance (covers_lem _ _ e))
  | inr e ↦ rw e h
]

decreased-solvent :
    (now r amount : ℕ) (c : Text) (bs : List RestaurantBalanceEntity)
    → All (λ (b : RestaurantBalanceEntity). pos 0 ≤ℤ b.balance) bs
    → All
        (λ (b : RestaurantBalanceEntity). pos 0 ≤ℤ b.balance)
        (update_where (can_pay r c amount) (decreased now amount) bs)
unfolding decreased
decreased-solvent now r amount c [] h = tt
decreased-solvent now r amount c (b ∷ bs) (h, hs) =
    (paid_row-solvent now r amount c b h, decreased-solvent now r amount c bs hs)

-- A refused payout changes nothing in the world.
pub record_payout-err :
    (env : Env) (body : CreatePayoutRequest) (region key : Text) (w : World) {e : AppError}
    → (record_payout env body region key w).0 ≡ err e
    → (record_payout env body region key w).1 ≡ w
unfolding record_payout find_owner_id_for_restaurant transaction pay_out decrement_if_sufficient
    create_transaction
record_payout-err env body region key w h = ground arith

balances_cases :
    (env : Env) (body : CreatePayoutRequest) (region key : Text) (w : World)
    → ((record_payout env body region key w).1.db.restaurant_balances ≡ w.db.restaurant_balances)
      ⊎ ((record_payout env body region key w).1.db.restaurant_balances
          ≡ update_where
              (can_pay body.restaurant_id body.currency body.amount)
              (decreased env.now body.amount)
              w.db.restaurant_balances)
unfolding record_payout find_owner_id_for_restaurant pay_out decrement_if_sufficient
    create_transaction transaction
balances_cases env body region key w = ground arith

-- Whatever a payout ends in, no restaurant owes the platform after it if none did before.
pub record_payout-IsSolvent :
    (env : Env) (body : CreatePayoutRequest) (region key : Text) (w : World)
    → IsSolvent w.db
    → IsSolvent (record_payout env body region key w).1.db
record_payout-IsSolvent env body region key w h = elim (balances_cases env body region key w) [
  | inl e ↦ rw e h
  | inr e ↦ rw e (
      decreased-solvent env.now body.restaurant_id body.amount body.currency
        w.db.restaurant_balances h)
]

-- Why a payout is made: the restaurant is known by an owner, its balance in the currency covers the
-- amount, the key is new, and the transaction goes through.
pub record Pays (env : Env) (body : CreatePayoutRequest) (key : Text) (w : World) (owner : ℕ)
    (account : RestaurantBalanceEntity) : Type 0 where
  pub owned :
      truthy_id (elim (latest_of body.restaurant_id w.db.orders) [
        | none ↦ none
        | some o ↦ some o.restaurant_owner_id
      ])
      ≡ some owner
  pub found :
      find_where (has_account body.restaurant_id body.currency) w.db.restaurant_balances
      ≡ some account
  pub covered : pos body.amount ≤ℤ account.balance
  pub fresh : key_taken (some key) w.db.transactions ≡ false
  pub committed : env.is_committed ≡ true

find_where-stronger :
    (p q : RestaurantBalanceEntity → Bool) (bs : List RestaurantBalanceEntity)
    (b : RestaurantBalanceEntity)
    → ((x : RestaurantBalanceEntity) → q x ≡ true → p x ≡ true)
    → find_where p bs ≡ some b
    → q b ≡ true
    → find_where q bs ≡ some b
find_where-stronger p q [] b weaker h e = cc
find_where-stronger p q (x ∷ bs) b weaker h e =
    ground (arith, weaker x, find_where-stronger p q bs b weaker)

and_true : {p q : Bool} → p ≡ true → q ≡ true → p && q ≡ true
and_true e f = rw (e, f) refl

leb-true : (m n : ℕ) → m ≤ n → leb m n ≡ true
leb-true m n h = ground arith

has_account-own :
    (r amount : ℕ) (c : Text) (x : RestaurantBalanceEntity)
    → can_pay r c amount x ≡ true
    → has_account r c x ≡ true
has_account-own r amount c x h = elim (Bool-cases (has_account r c x)) [
  | inl e ↦ e
  | inr e ↦ absurd (ground arith)
]

pair_eq : {A B : Type 0} {p : A × B} {a : A} {b : B} → p.0 ≡ a → p.1 ≡ b → p ≡ (a, b)
pair_eq e f = rw (e, f)

refused_key :
    (env : Env) (body : CreatePayoutRequest) (region key : Text) (w : World) {t : PayoutResponse}
    → key_taken (some key) w.db.transactions ≡ true
    → (record_payout env body region key w).0 ≢ ok t
unfolding record_payout find_owner_id_for_restaurant pay_out decrement_if_sufficient
    create_transaction transaction payout_input
refused_key env body region key w h paid = ground arith

module _ (env : Env) (body : CreatePayoutRequest) (region key : Text) (w : World) (owner : ℕ)
    (account : RestaurantBalanceEntity) (pays : Pays env body key w owner account) where
  abbrev pub tx : TransactionEntity
  tx = record {
    id = env.next_id 0;
    region = region;
    order_id = none;
    transaction_type = payout;
    method = bank_transfer;
    provider_id = none;
    provider_reference_id = some body.provider_reference_id;
    status = succeeded;
    amount = body.amount;
    currency = body.currency;
    src_acc_id = none;
    dst_acc_id = some owner;
    is_refunded = false;
    refunded_payment_id = none;
    idempotency_key = some key;
    created_at = env.now;
    updated_at = env.now;
  }

  -- The world after a payout.
  abbrev pub after_payout : World
  after_payout = record w {
    db = record w.db {
      restaurant_balances =
          update_where (can_pay body.restaurant_id body.currency body.amount)
            (λ b. record b { balance = b.balance -ℤ pos body.amount; updated_at = env.now })
            w.db.restaurant_balances;
      transactions = insert_row tx w.db.transactions;
    };
  }

  payable : can_pay body.restaurant_id body.currency body.amount account ≡ true
  payable =
      and_true
        (find_where_sound (has_account body.restaurant_id body.currency) w.db.restaurant_balances
          account pays.found)
        (leb-true _ _ pays.covered)

  pay_out_lem : pay_out env body region key owner w ≡ (ok tx, after_payout)
  unfolding pay_out decrement_if_sufficient decreased new_transaction create_transaction
      payout_input
  pay_out_lem =
      let chosen =
        find_where-stronger (has_account body.restaurant_id body.currency)
          (can_pay body.restaurant_id body.currency body.amount) w.db.restaurant_balances account
          (has_account-own body.restaurant_id body.amount body.currency) pays.found payable in
      rw (
        pay_out, steps, decrement_if_sufficient, chosen, or_throw, create_transaction, payout_input,
        pays.fresh,
      )

  -- A payout that is due is made.
  pub record_payout-pays :
      record_payout env body region key w ≡ (ok (payout_response tx), after_payout)
  unfolding record_payout find_owner_id_for_restaurant
  record_payout-pays = rw (
    record_payout,
    steps,
    find_owner_id_for_restaurant,
    pays.owned,
    or_throw,
    transaction-ok env (pay_out env body region key owner) w pays.committed pay_out_lem,
  )

  -- It takes its amount from the account.
  pub record_payout-balance :
      balance_of body.restaurant_id body.currency after_payout.db.restaurant_balances
      ≡ balance_of body.restaurant_id body.currency w.db.restaurant_balances -ℤ pos body.amount
  unfolding decreased
  record_payout-balance =
      rw
        (
          find_where-update_found (has_account body.restaurant_id body.currency)
              (can_pay body.restaurant_id body.currency body.amount) (decreased env.now body.amount)
              w.db.restaurant_balances account (λ x. refl) pays.found payable,
          pays.found,
        )
        refl

  key_taken-inserted : key_taken (some key) after_payout.db.transactions ≡ true
  unfolding key_taken new_transaction payout_input
  key_taken-inserted =
      is_some-find_where-insert (has_key key) tx w.db.transactions (text_eq_refl key)

-- A key pays once: a payout leaves its key in the ledger, and as long as the key stands there, every
-- payout under it is refused and changes nothing.
pub record_payout-again :
    (env later : Env) (body other : CreatePayoutRequest) (region key : Text) (w v : World)
    (owner : ℕ) (account : RestaurantBalanceEntity)
    → Pays env body key w owner account
    → key_taken (some key) v.db.transactions ≡ true
    → (key_taken (some key) (record_payout env body region key w).1.db.transactions ≡ true)
      × ((e : AppError) × (record_payout later other region key v ≡ (err e, v)))
record_payout-again env later body other region key w v owner account pays taken = (
  rw (record_payout-pays env body region key w owner account pays)
      (key_taken-inserted env body region key w owner account pays),
  elim (Result-cases (record_payout later other region key v).0) [
    | inr (e, refused) ↦ (e, pair_eq refused (record_payout-err later other region key v refused))
    | inl (t, paid) ↦ absurd (refused_key later other region key v taken paid)
  ],
)

-- A payout is made where the restaurant has an owner on record and a balance that covers the amount,
-- the key is new and the transaction goes through. It books one payout of the amount
-- from the platform to the owner, takes the amount from the balance, and changes nothing else.
pub record_payout-made :
    (env : Env) (body : CreatePayoutRequest) (region key : Text) (w : World) (owner : ℕ)
    (account : RestaurantBalanceEntity)
    → (pays : Pays env body key w owner account)
    → (record_payout env body region key w ≡ (
      ok (payout_response (tx env body region key w owner account pays)),
      after_payout env body region key w owner account pays,
    ))
      × (balance_of body.restaurant_id body.currency
            (record_payout env body region key w).1.db.restaurant_balances
          ≡ balance_of body.restaurant_id body.currency w.db.restaurant_balances -ℤ pos body.amount)
record_payout-made env body region key w owner account pays = (
  record_payout-pays env body region key w owner account pays,
  rw (record_payout-pays env body region key w owner account pays)
      (record_payout-balance env body region key w owner account pays),
)
