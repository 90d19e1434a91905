-- ===== src/Agent/Settlement/Money.antt =====
-- Where the money of a settled order goes.
use quickbite_order_service.Prelude.{
  ℕ, zero, suc, ◌+◌, ◌≡◌, refl, ◌≢◌, true, false, Bool, Option, some, List, ltb, if◌then◌else◌,
  arith, Bool-cases, inl, inr, ap, ◌∙◌,
}
use quickbite_order_service.Prelude.Int.{ℤ, pos, negsuc, ◌+ℤ◌, ◌-ℤ◌, int_laws}
use quickbite_order_service.Prelude.Text.{Text, text_eq}
use quickbite_order_service.Order.Enums.{cod, method_eq}
use quickbite_order_service.Order.Entity.{OrderEntity}
use quickbite_order_service.Payment.Entity.{
  TransactionEntity, TransactionType, commission, adjustment,
}
use quickbite_order_service.Payment.Repo.{key_taken, CreateTransactionInput}
use quickbite_order_service.Payment.Ledger.{
  net_of, movement_in, movement_out, net_of-insert, key_taken-insert_other,
}
use quickbite_order_service.Finance.Entity.{RestaurantBalanceEntity}
use quickbite_order_service.Finance.Repo.Laws.{balance_of, balance_of-upsert}
use quickbite_order_service.Agent.Settlement.{
  share_of, bps_or_zero, cod_collect_key, commission_key, service_fee_key, delivery_fee_key,
  cod_collection_input, platform_input, net_to_restaurant, settle_delivered, is_zero_ℤ,
}
use quickbite_order_service.Agent.Settlement.Effect.{Settles, settle_delivered-db}
use quickbite_order_service.Agent.Settlement.Tables.{
  book_if, commission_input, service_fee_input, ledger_after, balances_after,
}
use quickbite_order_service.Store.{Env, World}

is_zero_ℤ_eq : (z : ℤ) → is_zero_ℤ z ≡ true → z ≡ pos 0
is_zero_ℤ_eq (pos zero) h = refl
is_zero_ℤ_eq (pos (suc n)) h = cc
is_zero_ℤ_eq (negsuc n) h = cc

-- The settlement of the order has not been booked yet.
pub record IsUnbooked (order : OrderEntity) (ts : List TransactionEntity) : Type 0 where
  pub no_cod : key_taken (some (cod_collect_key order.public_id)) ts ≡ false
  pub no_commission : key_taken (some (commission_key order.public_id)) ts ≡ false
  pub no_service_fee : key_taken (some (service_fee_key order.public_id)) ts ≡ false
  pub no_delivery_fee : key_taken (some (delivery_fee_key order.public_id)) ts ≡ false

-- A booking of a platform transfer that is made on a test, from the owner's side.
module _ (env : Env) (region : Text) (order : OrderEntity) where
  cod_step :
      (ts : List TransactionEntity)
      → order.customer_id ≢ order.restaurant_owner_id
      → key_taken (some (cod_collect_key order.public_id)) ts ≡ false
      → net_of order.restaurant_owner_id (
          book_if (method_eq order.payment_method cod) env 0 (cod_collection_input region order) ts)
        ≡ net_of order.restaurant_owner_id ts
          +ℤ pos (if method_eq order.payment_method cod then order.total else 0)
  unfolding cod_collection_input
  cod_step ts other fresh = elim (Bool-cases (method_eq order.payment_method cod)) [
    | inl b ↦ rw b (
        net_of-insert env 0 order.restaurant_owner_id (cod_collection_input region order) ts fresh
        ∙ ap (λ m. net_of order.restaurant_owner_id ts +ℤ m)
            (movement_in order.restaurant_owner_id order.customer_id order.total other))
    | inr b ↦ rw b (omega int_laws)
  ]

  platform_step :
      (k : ℕ) (kind : TransactionType) (amount : ℕ) (key : Text) (ts : List TransactionEntity)
      → key_taken (some key) ts ≡ false
      → net_of order.restaurant_owner_id
          (book_if (ltb 0 amount) env k (platform_input region order kind amount key) ts)
        ≡ net_of order.restaurant_owner_id ts -ℤ pos amount
  unfolding platform_input
  platform_step k kind amount key ts fresh = elim (Bool-cases (ltb 0 amount)) [
    | inl b ↦ rw b (
        net_of-insert env k order.restaurant_owner_id (platform_input region order kind amount key)
          ts fresh
        ∙ rw (movement_out order.restaurant_owner_id amount) (omega int_laws))
    | inr b ↦ let z : amount ≡ 0 = ground arith in rw b (omega int_laws)
  ]

  still_free :
      (b : Bool) (k : ℕ) (input : CreateTransactionInput) (key other : Text)
      (ts : List TransactionEntity)
      → input.idempotency_key ≡ some other
      → text_eq other key ≡ false
      → key_taken (some key) ts ≡ false
      → key_taken (some key) (book_if b env k input ts) ≡ false
  still_free true k input key other ts e ne h =
      key_taken-insert_other env k input key other ts e ne ∙ h
  still_free false k input key other ts e ne h = h

  -- The four keys of one order are different texts.
  keys_differ :
      (text_eq (cod_collect_key order.public_id) (commission_key order.public_id) ≡ false)
      × (text_eq (cod_collect_key order.public_id) (service_fee_key order.public_id) ≡ false)
      × (text_eq (cod_collect_key order.public_id) (delivery_fee_key order.public_id) ≡ false)
      × (text_eq (commission_key order.public_id) (service_fee_key order.public_id) ≡ false)
      × (text_eq (commission_key order.public_id) (delivery_fee_key order.public_id) ≡ false)
      × (text_eq (service_fee_key order.public_id) (delivery_fee_key order.public_id) ≡ false)
  unfolding text_eq
  keys_differ = (refl, refl, refl, refl, refl, refl)

  -- The whole booking, from the owner's side.
  net_of-ledger_after :
      (fee : ℕ) (ts : List TransactionEntity)
      → order.customer_id ≢ order.restaurant_owner_id
      → IsUnbooked order ts
      → net_of order.restaurant_owner_id (ledger_after env region order fee ts)
        ≡ net_of order.restaurant_owner_id ts
          +ℤ pos (if method_eq order.payment_method cod then order.total else 0)
          -ℤ pos fee
          -ℤ pos order.service_fee
          -ℤ pos order.delivery_fee
  unfolding cod_collection_input platform_input
  net_of-ledger_after fee ts other u =
      let (cod_com, cod_ser, cod_del, com_ser, com_del, ser_del) = keys_differ in
      let is_cod = method_eq order.payment_method cod in
      let cod_in = cod_collection_input region order in
      let com_in = commission_input region order fee in
      let ser_in = service_fee_input region order in
      let t1 = book_if is_cod env 0 cod_in ts in
      let t2 = book_if (ltb 0 fee) env 1 com_in t1 in
      let t3 = book_if (ltb 0 order.service_fee) env 2 ser_in t2 in
      let com_free = still_free is_cod 0 cod_in _ _ ts refl cod_com u.no_commission in
      let ser_free =
        still_free (ltb 0 fee) 1 com_in _ _ t1 refl com_ser
          (still_free is_cod 0 cod_in _ _ ts refl cod_ser u.no_service_fee) in
      let del_free = still_free (ltb 0 order.service_fee) 2 ser_in _ _ t2 refl ser_del (
        still_free (ltb 0 fee) 1 com_in _ _ t1 refl com_del
          (still_free is_cod 0 cod_in _ _ ts refl cod_del u.no_delivery_fee)) in
      platform_step 3 adjustment order.delivery_fee (delivery_fee_key order.public_id) t3 del_free
      ∙ ap (λ m. m -ℤ pos order.delivery_fee)
          (platform_step 2 adjustment order.service_fee (service_fee_key order.public_id) t2
              ser_free
            ∙ ap (λ m. m -ℤ pos order.service_fee)
                (platform_step 1 commission fee (commission_key order.public_id) t1 com_free
                  ∙ ap (λ m. m -ℤ pos fee) (cod_step ts other u.no_cod)))

pub balance_of-balances_after :
    (env : Env) (region : Text) (order : OrderEntity) (fee : ℕ) (bs : List RestaurantBalanceEntity)
    → balance_of order.restaurant_id order.currency (balances_after env region order fee bs)
      ≡ balance_of order.restaurant_id order.currency bs +ℤ net_to_restaurant order fee
balance_of-balances_after env region order fee bs =
    elim (Bool-cases (is_zero_ℤ (net_to_restaurant order fee))) [
      | inl zero_net ↦ rw (zero_net, is_zero_ℤ_eq _ zero_net) (omega int_laws)
      | inr some_net ↦ rw some_net (
          balance_of-upsert env.now order.restaurant_id region order.currency
            (net_to_restaurant order fee) bs)
    ]

reconcile :
    (paid_now : Bool) (after before : ℤ) (total subtotal delivery_fee service_fee fee : ℕ)
    → total ≡ subtotal + delivery_fee + service_fee
    → after
      ≡ before
        +ℤ pos (if paid_now then total else 0)
        -ℤ pos fee
        -ℤ pos service_fee
        -ℤ pos delivery_fee
    → after +ℤ pos (if paid_now then 0 else total) ≡ before +ℤ (pos subtotal -ℤ pos fee)
reconcile true after before total subtotal delivery_fee service_fee fee sum h =
    rw h (omega int_laws)
reconcile false after before total subtotal delivery_fee service_fee fee sum h =
    rw h (omega int_laws)

-- A settlement that is committed, of an order whose total is the sum of its parts, whose customer is
-- not the owner and whose bookings are not in the ledger yet, raises the restaurant's balance by the
-- subtotal less the commission; and the ledger moves the owner's account by the same amount, once the
-- total of an order that was paid online is counted, which the ledger has from its capture.
pub settle_delivered-balances :
    (env : Env) (share_bps : ℕ) (commission_bps : Option ℕ) (public_id : Text) (agent_id : ℕ)
    (region : Text) (w : World) (order : OrderEntity)
    → Settles env public_id agent_id w order
    → order.total ≡ order.subtotal + order.delivery_fee + order.service_fee
    → order.customer_id ≢ order.restaurant_owner_id
    → IsUnbooked order w.db.transactions
    → let before = w.db in
      let after =
        (settle_delivered env share_bps commission_bps public_id agent_id region w).1.db in
      let credit =
        pos order.subtotal -ℤ pos (share_of order.subtotal (bps_or_zero commission_bps)) in
      (balance_of order.restaurant_id order.currency after.restaurant_balances
        ≡ balance_of order.restaurant_id order.currency before.restaurant_balances +ℤ credit)
      × (net_of order.restaurant_owner_id after.transactions
            +ℤ pos (if method_eq order.payment_method cod then 0 else order.total)
          ≡ net_of order.restaurant_owner_id before.transactions +ℤ credit)
unfolding net_to_restaurant
settle_delivered-balances env share_bps commission_bps public_id agent_id region w order s sum other
      u =
    rw (settle_delivered-db env share_bps commission_bps public_id agent_id region w order s) (
      balance_of-balances_after env region order
          (share_of order.subtotal (bps_or_zero commission_bps)) w.db.restaurant_balances,
      reconcile (method_eq order.payment_method cod) _ _ order.total order.subtotal
          order.delivery_fee order.service_fee _ sum
          (net_of-ledger_after env region order
            (share_of order.subtotal (bps_or_zero commission_bps)) w.db.transactions other u),
    )
