-- ===== src/Assignment/Offers.antt =====
-- `AssignmentService` of app/assignment/service/assignment.service.ts: how ready orders are offered.
-- The radius search of Redis is an argument, the agents in the radius from the nearest on; the names that
-- the offer shows of the branch are not kept.
pub mod Candidates
use quickbite_order_service.Prelude.{
  ℕ, suc, ◌+◌, ◌*◌, Bool, true, false, ◌&&◌, not, Option, none, some, List, [], ◌∷◌, ◌++◌, leb,
  length, take, if◌then◌else◌, is_some,
}
use quickbite_order_service.Prelude.Text.{Text, text_eq}
use quickbite_order_service.Prelude.Rows.{select_where}
use quickbite_order_service.Order.Entity.{OrderEntity}
use quickbite_order_service.Order.Repo.{is_claimable}
use quickbite_order_service.Store.{
  Env, Action, Redis, Room, Notice, gets, query, pure, emit, modify_redis, agent_room, admin_alerts,
  task_offered, assignment_exhausted, ◌>>=◌, ◌>>◌,
}

-- The part `delivery` of the configuration that offers use.
pub record DeliveryEnv : Type 0 where
  pub candidates : ℕ
  pub offer_ttl_sec : ℕ
  pub max_attempts : ℕ
  pub batch : ℕ

pub data AssignOutcome : Type 0 where
  offered skipped exhausted no_candidates : AssignOutcome

-- Online and not on a delivery.
abbrev pub is_free : Redis → ℕ → Bool
is_free r agent_id = r.online agent_id && not (r.busy agent_id)

-- The loop over the agents found, with those that are taken so far; it stops when it has enough.
unfoldable pub collect : ℕ → Redis → List ℕ → List ℕ → List ℕ
collect enough r result [] = result
collect enough r result (agent_id ∷ raw) =
    let next = if is_free r agent_id then result ++ agent_id ∷ [] else result in
    let rest = collect enough r next raw in
    if is_free r agent_id && leb enough (length next) then next else rest

-- COUNT cuts the search off before the agents are looked at.
unfoldable pub find_candidates : DeliveryEnv → List ℕ → Redis → List ℕ
find_candidates cfg nearby r =
    let overscan = cfg.candidates * 4 in collect cfg.candidates r [] (take overscan nearby)

abbrev pub put : {A : Type 0} → Text → A → (Text → A) → Text → A
put key a f id = if text_eq id key then a else f id

-- One attempt more.
abbrev pub count_attempt : Text → Redis → Redis
count_attempt public_id r = record r {
  attempts = put public_id (suc (r.attempts public_id)) r.attempts;
}

abbrev pub set_offer : Text → List ℕ → Redis → Redis
set_offer public_id agents r = record r { offer = put public_id (some agents) r.offer }

unfoldable pub send_offers : Env → DeliveryEnv → OrderEntity → List ℕ → Action (Unit {0})
send_offers env cfg order [] = pure tt
send_offers env cfg order (agent_id ∷ agents) =
    emit (agent_room agent_id) (task_offered order (env.now + cfg.offer_ttl_sec * 1000))
    >> send_offers env cfg order agents

-- The offer is set only where there is none, by SET NX.
abbrev pub offer_to : Env → DeliveryEnv → OrderEntity → List ℕ → Action AssignOutcome
offer_to env cfg order [] = do modify_redis (count_attempt order.public_id); pure no_candidates
offer_to env cfg order (a ∷ agents) = do
  modify_redis (set_offer order.public_id (a ∷ agents))
  modify_redis (count_attempt order.public_id)
  send_offers env cfg order (a ∷ agents)
  pure offered

unfoldable pub try_assign : Env → DeliveryEnv → List ℕ → OrderEntity → Action AssignOutcome
unfolding send_offers
try_assign env cfg nearby order w =
    let attempts = w.redis.attempts order.public_id in
    if is_some (w.redis.offer order.public_id)
    then pure skipped w
    else if leb cfg.max_attempts attempts
    then (emit admin_alerts (assignment_exhausted order.public_id attempts) >> pure exhausted) w
    else offer_to env cfg order (find_candidates cfg nearby w.redis) w

abbrev pub is_offered : AssignOutcome → Bool
is_offered offered = true
is_offered _ = false

-- The loop of a tick; the counts of orders offered and passed over.
unfoldable pub assign_all :
    Env → DeliveryEnv → (OrderEntity → List ℕ) → List OrderEntity → Action (ℕ × ℕ)
assign_all env cfg nearby [] = pure (0, 0)
assign_all env cfg nearby (o ∷ orders) = do
  outcome ← try_assign env cfg (nearby o) o
  counts ← assign_all env cfg nearby orders
  pure (if is_offered outcome then (suc counts.0, counts.1) else (counts.0, suc counts.1))

-- `findReadyUnassigned`: the oldest orders that wait for an agent.
unfoldable pub find_ready_unassigned : ℕ → Action (List OrderEntity)
find_ready_unassigned limit = query (λ db. take limit (select_where is_claimable db.orders))

-- How many orders were looked at, offered, and passed over.
unfoldable pub tick_region : Env → DeliveryEnv → (OrderEntity → List ℕ) → Action (ℕ × ℕ × ℕ)
tick_region env cfg nearby = do
  orders ← find_ready_unassigned cfg.batch
  counts ← assign_all env cfg nearby orders
  pure (length orders, counts.0, counts.1)
