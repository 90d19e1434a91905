-- ===== src/Assignment/Claims.antt =====
-- `AssignmentService` of app/assignment/service/assignment.service.ts: how an offer is accepted or
-- turned down, and how an administrator assigns. The lock of a claim expires by itself.
pub mod Exclusive
pub mod Announce
pub mod Offline
use quickbite_order_service.Prelude.{
  ℕ, Bool, true, false, not, Option, none, some, List, [], ◌∷◌, ◌==◌, if◌then◌else◌, is_some,
}
use quickbite_order_service.Prelude.Text.{Text, text_eq}
use quickbite_order_service.Prelude.Rows.{select_where}
use quickbite_order_service.Order.Entity.{OrderEntity}
use quickbite_order_service.Order.Repo.{
  contains_id, find_order_by_public_id, claim_ready_order_for_agent,
}
use quickbite_order_service.Agent.Presence.{mark_busy}
use quickbite_order_service.Assignment.Offers.{put}
use quickbite_order_service.Store.{
  Env, World, Action, Redis, Result, ok, err, gets, pure, emit, modify_redis, or_throw, throw_if,
  transaction, agent_room, customer_room, branch_room, task_assigned, status_changed,
  offer_cancelled, offer_not_found_or_expired, not_in_candidate_list, order_already_claimed,
  order_not_in_ready_state, infrastructure, attempt, ◌>>=◌, ◌>>◌,
}

-- An offer that is there and names somebody.
abbrev pub truthy_offer : Option (List ℕ) → Option (List ℕ)
truthy_offer none = none
truthy_offer (some []) = none
truthy_offer (some (a ∷ agents)) = some (a ∷ agents)

abbrev pub set_claim : Text → Option ℕ → Redis → Redis
set_claim public_id holder r = record r { claim = put public_id holder r.claim }

abbrev pub drop_offer : Text → Redis → Redis
drop_offer public_id r = record r { offer = put public_id none r.offer }

-- The `catch` of a claim: the lock is given back, unless that fails. (A claim that finds no order
-- gives it back twice; the two calls share an outcome.)
abbrev pub unlock_on_error : {A : Type 0} → Env → Text → Result A × World → Result A × World
unlock_on_error env public_id (ok a, w) = (ok a, w)
unlock_on_error env public_id (err e, w) =
    if env.is_failing 0
    then (err infrastructure, w)
    else (err e, record w { redis = set_claim public_id none w.redis })

-- SET NX of the lock.
unfoldable pub lock : Text → ℕ → Action (Unit {0})
lock public_id agent_id w =
    if is_some (w.redis.claim public_id)
    then (err order_already_claimed, w)
    else (ok tt, record w { redis = set_claim public_id (some agent_id) w.redis })

-- The bodies of the two transactions.
unfoldable pub claim_order : Env → Text → ℕ → Action OrderEntity
claim_order env public_id agent_id = do
  or_throw (← find_order_by_public_id public_id) order_not_in_ready_state
  or_throw (← claim_ready_order_for_agent env public_id agent_id) order_not_in_ready_state

unfoldable pub force_claim_order : Env → Text → ℕ → Action OrderEntity
force_claim_order env public_id agent_id = do
  or_throw (← claim_ready_order_for_agent env public_id agent_id) order_not_in_ready_state

unfoldable pub cancel_offers : Text → List ℕ → Action (Unit {0})
cancel_offers public_id [] = pure tt
cancel_offers public_id (loser ∷ losers) =
    emit (agent_room loser) (offer_cancelled public_id) >> cancel_offers public_id losers

-- What follows a claim that went through.
unfoldable pub announce_claim : Env → Text → ℕ → List ℕ → OrderEntity → Action OrderEntity
announce_claim env public_id agent_id losers updated = do
  attempt env 1 (mark_busy agent_id)
  emit (agent_room agent_id) (task_assigned updated)
  cancel_offers public_id losers
  emit (customer_room updated.customer_id) (status_changed updated)
  emit (branch_room updated.branch_id) (status_changed updated)
  attempt env 2 (modify_redis (drop_offer public_id))
  pure updated

unfoldable pub claim : Env → Text → ℕ → Action OrderEntity
claim env public_id agent_id = do
  found ← gets (λ w. w.redis.offer public_id)
  candidate_ids ← or_throw (truthy_offer found) offer_not_found_or_expired
  throw_if (not (contains_id candidate_ids agent_id)) not_in_candidate_list
  lock public_id agent_id
  updated ←
      λ w. unlock_on_error env public_id (transaction env (claim_order env public_id agent_id) w)
  announce_claim env public_id agent_id (select_where (λ id. not (id == agent_id)) candidate_ids)
      updated

unfoldable pub admin_assign : Env → Text → ℕ → Action OrderEntity
admin_assign env public_id agent_id = do
  lock public_id agent_id
  updated ← λ w.
      unlock_on_error env public_id (transaction env (force_claim_order env public_id agent_id) w)
  announce_claim env public_id agent_id [] updated

abbrev pub keep_offer : Text → List ℕ → Redis → Redis
keep_offer public_id [] r = drop_offer public_id r
keep_offer public_id (a ∷ remaining) r = record r {
  offer = put public_id (some (a ∷ remaining)) r.offer;
}

unfoldable pub reject : Text → ℕ → Action (Unit {0})
reject public_id agent_id = do
  found ← gets (λ w. w.redis.offer public_id)
  candidate_ids ← or_throw (truthy_offer found) offer_not_found_or_expired
  throw_if (not (contains_id candidate_ids agent_id)) not_in_candidate_list
  modify_redis (keep_offer public_id (select_where (λ id. not (id == agent_id)) candidate_ids))
