-- ===== src/Store.antt =====
-- The state that the handlers share: the tables of one region's hot shard (src/migrations), the
-- Redis keys of the delivery flow, the notices sent over the web socket, and the calls of core's
-- stock. A handler is an action: it returns a value or throws an error, and what it has written
-- outside a transaction stays written.
pub mod Laws
use quickbite_order_service.Prelude.{
  ℕ, suc, Bool, true, false, Option, none, some, List, [], ◌∷◌, ◌++◌, if◌then◌else◌,
}
use quickbite_order_service.Prelude.Text.{Text}
use quickbite_order_service.Order.Entity.{OrderEntity, OrderItemEntity}
use quickbite_order_service.Payment.Entity.{
  TransactionEntity, PaymentSessionEntity, PaymentWebhookEventEntity,
}
use quickbite_order_service.Finance.Entity.{RestaurantBalanceEntity}
use quickbite_order_service.Agent.Entity.{AgentEarningEntity}
use quickbite_order_service.Events.Entity.{OutboxRow}

-- The tables, each with its rows from the oldest on.
pub record Db : Type 0 where
  pub orders : List OrderEntity
  pub order_items : List OrderItemEntity
  pub payment_sessions : List PaymentSessionEntity
  pub transactions : List TransactionEntity
  pub payment_webhook_events : List PaymentWebhookEventEntity
  pub restaurant_balances : List RestaurantBalanceEntity
  pub agent_earnings : List AgentEarningEntity
  pub events_outbox : List OutboxRow

-- The keys `offer:order:*`, `claim:order:*` and `assign:attempts:*` by the order's public id, and
-- of a region's presence the agents that are online (`presence:meta`), those in the geo set, and
-- those in `presence:busy`. A key that has expired is a key that is absent.
pub record Redis : Type 0 where
  pub offer : Text → Option (List ℕ)
  pub claim : Text → Option ℕ
  pub attempts : Text → ℕ
  pub online : ℕ → Bool
  pub located : ℕ → Bool
  pub busy : ℕ → Bool

pub data Room : Type 0 where
  branch_room customer_room agent_room : ℕ → Room
  admin_alerts : Room

-- The notices; the response objects that they carry are selections of the order's fields.
pub data Notice : Type 0 where
  order_created : OrderEntity → ℕ → Notice
  status_changed : OrderEntity → Notice
  task_offered : OrderEntity → ℕ → Notice
  task_assigned : OrderEntity → Notice
  offer_cancelled : Text → Notice
  assignment_exhausted : Text → ℕ → Notice

-- `reserveStock` and `releaseStock`: the branch, the products with their quantities, the key.
pub data StockCall : Type 0 where
  reserve release : ℕ → List (ℕ × ℕ) → Text → StockCall

pub record World : Type 0 where
  pub db : Db
  pub redis : Redis
  pub sent : List (Room × Notice)
  pub stock : List StockCall

pub record UnavailableItem : Type 0 where
  pub product_id : ℕ
  pub requested : ℕ
  pub available : ℕ

-- The errors of the modules' errors.ts. `type_error` is what reading a field of `undefined` throws,
-- `unique_violation` what the database answers to a second row with a unique key, and
-- `infrastructure` a statement, commit or call that fails for reasons outside the service.
pub data AppError : Type 0 where
  order_not_found un_authorised branch_not_accepting_orders : AppError
  online_payment_not_available reason_required : AppError
  cancellation_window_expired invalid_status_transition : AppError
  out_of_stock : List UnavailableItem → AppError
  unknown_region payment_provider_unavailable payment_not_found : AppError
  invalid_webhook_signature malformed_webhook : AppError
  insufficient_balance restaurant_not_found : AppError
  not_your_task order_not_in_assigned_state invalid_agent_transition : AppError
  offer_not_found_or_expired not_in_candidate_list order_already_claimed : AppError
  order_not_in_ready_state offline_while_picked : AppError
  type_error unique_violation infrastructure : AppError

-- What a call finds around it: `NOW()` and `Date.now()`, the numbers that the sequences hand out
-- and the random ids, by the place of the insert in the call, and whether the database carries the
-- call's transaction through. Where it does not, the place of the failure cannot be told apart
-- after the rollback, so that one bit stands for it. `is_failing` says which of the calls that a
-- handler makes outside its transaction fail, by their place in the handler.
pub record Env : Type 0 where
  pub now : ℕ
  pub next_id : ℕ → ℕ
  pub random_uuid : ℕ → Text
  pub is_committed : Bool
  pub is_failing : ℕ → Bool

pub data Result (A : Type 0) : Type 0 where
  ok : A → Result A
  err : AppError → Result A

abbrev pub Action : Type 0 → Type 0
Action A = World → Result A × World

module _ {A : Type 0} where
  abbrev pub pure : A → Action A
  pure a w = (ok a, w)

  abbrev pub throw : AppError → Action A
  throw e w = (err e, w)

  abbrev pub gets : (World → A) → Action A
  gets f w = (ok (f w), w)

  abbrev pub query : (Db → A) → Action A
  query f w = (ok (f w.db), w)

  -- `if (!x) throw e`.
  abbrev pub or_throw : Option A → AppError → Action A
  or_throw none e = throw e
  or_throw (some a) e = pure a

  abbrev pub lift : Result A → Action A
  lift r w = (r, w)

-- What follows an action that has ended.
abbrev pub continue : {A B : Type 0} → (A → Action B) → Result A × World → Result B × World
continue f (ok a, w) = f a w
continue f (err e, w) = (err e, w)

infixl 5 ◌>>=◌ ◌>>◌
abbrev pub ◌>>=◌ : {A B : Type 0} → Action A → (A → Action B) → Action B
◌>>=◌ m f w = continue f (m w)

abbrev pub ◌>>◌ : {A B : Type 0} → Action A → Action B → Action B
m >> k = m >>= λ _. k

abbrev pub throw_if : Bool → AppError → Action (Unit {0})
throw_if b e w = (if b then err e else ok tt, w)

abbrev pub modify_db : (Db → Db) → Action (Unit {0})
modify_db f w = (ok tt, record w { db = f w.db })

abbrev pub modify_redis : (Redis → Redis) → Action (Unit {0})
modify_redis f w = (ok tt, record w { redis = f w.redis })

-- `io.to(room).emit(…)`.
abbrev pub emit : Room → Notice → Action (Unit {0})
emit room notice w = (ok tt, record w { sent = w.sent ++ (room, notice) ∷ [] })

-- `if (b) await m`.
abbrev pub when : Bool → Action (Unit {0}) → Action (Unit {0})
when b m w = if b then m w else (ok tt, w)

-- The `k`-th call outside a transaction, which throws where it fails.
abbrev pub attempt : {A : Type 0} → Env → ℕ → Action A → Action A
attempt env k m w = if env.is_failing k then (err infrastructure, w) else m w

-- The commit or the rollback to the tables `before`.
abbrev pub conclude : {A : Type 0} → Env → Db → Result A × World → Result A × World
conclude env before (ok a, w) =
    if env.is_committed then (ok a, w) else (err infrastructure, record w { db = before })
conclude env before (err e, w) = (err e, record w { db = before })

-- `const trx = await conn.transaction(); try { …; await trx.commit() } catch { await trx.rollback();
-- throw }`: the tables are those of before, unless the body returns and the commit goes through.
unfoldable pub transaction : {A : Type 0} → Env → Action A → Action A
transaction env body w = conclude env w.db (body w)
