-- ===== src/Agent/Settlement/Again.antt =====
-- A settlement that is asked for once more: the ledger and the earnings do not count it again, the
-- balance of the restaurant does.
use quickbite_order_service.Prelude.{
  ℕ, ◌≡◌, refl, true, false, Bool, Option, some, List, ltb, ap, ◌∙◌,
}
use quickbite_order_service.Prelude.Int.{pos, ◌+ℤ◌, ◌-ℤ◌}
use quickbite_order_service.Prelude.Text.{Text}
use quickbite_order_service.Prelude.Rows.{find_where, update_where, find_where-update_self}
use quickbite_order_service.Order.Enums.{cod, method_eq}
use quickbite_order_service.Order.Entity.{OrderEntity}
use quickbite_order_service.Order.Repo.{has_public_id}
use quickbite_order_service.Payment.Entity.{TransactionEntity}
use quickbite_order_service.Payment.Repo.{key_taken, CreateTransactionInput}
use quickbite_order_service.Payment.Ledger.{
  insert_transaction-taken, key_taken-insert_self, key_taken-insert_mono,
}
use quickbite_order_service.Finance.Repo.Laws.{balance_of}
use quickbite_order_service.Agent.Repo.Laws.{insert_earning_row-again}
use quickbite_order_service.Agent.Settlement.{
  share_of, bps_or_zero, cod_collect_key, commission_key, service_fee_key, delivery_fee_key,
  cod_collection_input, platform_input, net_to_restaurant, settle_delivered,
}
use quickbite_order_service.Agent.Settlement.Effect.{Settles, settle_delivered-db}
use quickbite_order_service.Agent.Settlement.Tables.{
  book_if, commission_input, service_fee_input, delivery_fee_input, ledger_after, settled,
  orders_after, with_commission, with_delivery, commissioned,
}
use quickbite_order_service.Agent.Settlement.Money.{balance_of-balances_after}
use quickbite_order_service.Store.{Env, World}

-- Every booking that the order calls for stands in the ledger.
record IsBooked (order : OrderEntity) (fee : ℕ) (ts : List TransactionEntity) : Type 0 where
  cod_in :
      method_eq order.payment_method cod ≡ true
      → key_taken (some (cod_collect_key order.public_id)) ts ≡ true
  commission_in : ltb 0 fee ≡ true → key_taken (some (commission_key order.public_id)) ts ≡ true
  service_fee_in :
      ltb 0 order.service_fee ≡ true → key_taken (some (service_fee_key order.public_id)) ts ≡ true
  delivery_fee_in :
      ltb 0 order.delivery_fee ≡ true
      → key_taken (some (delivery_fee_key order.public_id)) ts ≡ true

-- The step of a booking: its own key is in, and the keys of before stay.
own_key :
    (b : Bool) (env : Env) (k : ℕ) (input : CreateTransactionInput) (key : Text)
    (ts : List TransactionEntity)
    → input.idempotency_key ≡ some key
    → b ≡ true
    → key_taken (some key) (book_if b env k input ts) ≡ true
own_key true env k input key ts e h = key_taken-insert_self env k input key ts e
own_key false env k input key ts e h = cc

kept_key :
    (b : Bool) (env : Env) (k : ℕ) (input : CreateTransactionInput) (key : Text)
    (ts : List TransactionEntity)
    → key_taken (some key) ts ≡ true
    → key_taken (some key) (book_if b env k input ts) ≡ true
kept_key true env k input key ts h = key_taken-insert_mono env k input key ts h
kept_key false env k input key ts h = h

skipped :
    (b : Bool) (env : Env) (k : ℕ) (input : CreateTransactionInput) (ts : List TransactionEntity)
    → (b ≡ true → key_taken input.idempotency_key ts ≡ true)
    → (book_if b env k input ts) ≡ ts
skipped true env k input ts h = insert_transaction-taken env k input ts (h refl)
skipped false env k input ts h = refl

module _ (env : Env) (region : Text) (order : OrderEntity) (fee : ℕ)
    (ts : List TransactionEntity) where
  ledger_after-IsBooked : IsBooked order fee (ledger_after env region order fee ts)
  unfolding cod_collection_input platform_input
  ledger_after-IsBooked =
      let b1 = method_eq order.payment_method cod in
      let b3 = ltb 0 order.service_fee in
      let b4 = ltb 0 order.delivery_fee in
      record {
        cod_in = λ h. kept_key b4 env 3 _ _ _ (
            kept_key b3 env 2 _ _ _
              (kept_key (ltb 0 fee) env 1 _ _ _ (own_key b1 env 0 _ _ ts refl h)));
        commission_in = λ h.
            kept_key b4 env 3 _ _ _
              (kept_key b3 env 2 _ _ _ (own_key (ltb 0 fee) env 1 _ _ _ refl h));
        service_fee_in = λ h. kept_key b4 env 3 _ _ _ (own_key b3 env 2 _ _ _ refl h);
        delivery_fee_in = λ h. own_key b4 env 3 _ _ _ refl h;
      }

  ledger_after-again : IsBooked order fee ts → ledger_after env region order fee ts ≡ ts
  unfolding cod_collection_input platform_input
  ledger_after-again b =
      let t1 =
        skipped (method_eq order.payment_method cod) env 0 (cod_collection_input region order) ts
          b.cod_in in
      let t2 = skipped (ltb 0 fee) env 1 (commission_input region order fee) ts b.commission_in in
      let t3 =
        skipped (ltb 0 order.service_fee) env 2 (service_fee_input region order) ts
          b.service_fee_in in
      let t4 =
        skipped (ltb 0 order.delivery_fee) env 3 (delivery_fee_input region order) ts
          b.delivery_fee_in in
      rw (t1, t2, t3, t4)

IsBooked-settled :
    (env : Env) (order : OrderEntity) (fee : ℕ) (ts : List TransactionEntity)
    → IsBooked order fee ts
    → IsBooked (settled env fee order) fee ts
IsBooked-settled env order fee ts b = record {
  cod_in = b.cod_in;
  commission_in = b.commission_in;
  service_fee_in = b.service_fee_in;
  delivery_fee_in = b.delivery_fee_in;
}

-- The delivered order is found where the order was.
settled-found :
    (env : Env) (public_id : Text) (fee : ℕ) (orders : List OrderEntity) (order : OrderEntity)
    → find_where (has_public_id public_id) orders ≡ some order
    → find_where (has_public_id public_id) (orders_after env public_id fee orders)
      ≡ some (settled env fee order)
settled-found env public_id fee orders order h =
    find_where-update_self (has_public_id public_id) (with_delivery env.now)
      (update_where (has_public_id public_id) (with_commission env.now fee) orders) (λ o e. e)
    ∙ rw (commissioned env.now public_id fee orders order h)

-- A second settlement of the same order, under the same rates, goes through like the first if its
-- commit does. It books nothing in the ledger and gives the agent nothing, and it credits the
-- restaurant once more.
pub settle_delivered-twice :
    (env later : Env) (share_bps : ℕ) (commission_bps : Option ℕ) (public_id : Text) (agent_id : ℕ)
    (region : Text) (w : World) (order : OrderEntity)
    → Settles env public_id agent_id w order
    → later.is_committed ≡ true
    → let once = settle_delivered env share_bps commission_bps public_id agent_id region w in
      let twice =
        settle_delivered later share_bps commission_bps public_id agent_id region once.1 in
      let credit =
        pos order.subtotal -ℤ pos (share_of order.subtotal (bps_or_zero commission_bps)) in
      (twice.1.db.transactions ≡ once.1.db.transactions)
      × (twice.1.db.agent_earnings ≡ once.1.db.agent_earnings)
      × (balance_of order.restaurant_id order.currency twice.1.db.restaurant_balances
          ≡ balance_of order.restaurant_id order.currency w.db.restaurant_balances
            +ℤ credit
            +ℤ credit)
unfolding net_to_restaurant
settle_delivered-twice env later share_bps commission_bps public_id agent_id region w order s c =
    let fee = share_of order.subtotal (bps_or_zero commission_bps) in
    let w1 = (settle_delivered env share_bps commission_bps public_id agent_id region w).1 in
    let once =
      settle_delivered-db env share_bps commission_bps public_id agent_id region w order s in
    let again : Settles later public_id agent_id w1 (settled env fee order) = record {
      found = rw once (settled-found env public_id fee w.db.orders order s.found);
      held = s.held;
      committed = c;
    } in
    rw
      (
        settle_delivered-db later share_bps commission_bps public_id agent_id region w1
            (settled env fee order) again,
        once,
      )
      (
        ledger_after-again later region (settled env fee order) fee _ (
            IsBooked-settled env order fee _
              (ledger_after-IsBooked env region order fee w.db.transactions)),
        insert_earning_row-again env later 4 4 _ _ w.db.agent_earnings refl,
        balance_of-balances_after later region (settled env fee order) fee _
            ∙ ap (λ m. m +ℤ (pos order.subtotal -ℤ pos fee))
                (balance_of-balances_after env region order fee w.db.restaurant_balances),
      )
