-- ===== src/Assignment/Offers/Candidates.antt =====
-- Whom an order is offered to, and how often.
use mathlib.Core.List.{append-nil, append_assoc}
use quickbite_order_service.Prelude.{
  ℕ, zero, suc, ◌+◌, ◌-◌, ◌≤◌, ◌<◌, ◌≡◌, refl, true, false, none, List, [], ◌∷◌, ◌++◌, arith, map,
  ◌*◌, ap, length, take, leb, Bool-cases, inl, inr, ◌∙◌, length-append,
}
use quickbite_order_service.Prelude.Text.{Text}
use quickbite_order_service.Prelude.Rows.{select_where}
use quickbite_order_service.Order.Entity.{OrderEntity}
use quickbite_order_service.Assignment.Offers.{
  DeliveryEnv, offered, is_free, collect, find_candidates, put, count_attempt, set_offer,
  send_offers, offer_to, try_assign,
}
use quickbite_order_service.Store.{ok, Env, World, Redis, Room, Notice, agent_room, task_offered}

leb_full :
    (enough : ℕ) (result : List ℕ) (a : ℕ)
    → enough ≡ length result + 1
    → leb enough (length (result ++ a ∷ [])) ≡ true
leb_full enough result a h = rw (length-append result (a ∷ [])) (ground arith)

leb_short :
    (enough k : ℕ) (result : List ℕ) (a : ℕ)
    → enough ≡ length result + suc (suc k)
    → leb enough (length (result ++ a ∷ [])) ≡ false
leb_short enough k result a h = rw (length-append result (a ∷ [])) (ground arith)

-- With room for `k + 1` more, the loop takes the next `k + 1` free agents.
collect_lem :
    (k enough : ℕ) (r : Redis) (result raw : List ℕ)
    → enough ≡ length result + suc k
    → collect enough r result raw ≡ result ++ take (suc k) (select_where (is_free r) raw)
unfolding collect
collect_lem k enough r result [] h = rw append-nil
collect_lem zero enough r result (agent_id ∷ raw) h = elim (Bool-cases (is_free r agent_id)) [
  | inr busy ↦ rw busy (collect_lem zero enough r result raw h)
  | inl free ↦ rw (free, leb_full enough result agent_id h)
]
collect_lem (suc k) enough r result (agent_id ∷ raw) h = elim (Bool-cases (is_free r agent_id)) [
  | inr busy ↦ rw busy (collect_lem (suc k) enough r result raw h)
  | inl free ↦
      rw (free, leb_short enough k result agent_id h)
        (collect_lem k enough r (result ++ agent_id ∷ []) raw
            (rw (length-append result (agent_id ∷ [])) (omega arith))
          ∙ append_assoc result (agent_id ∷ []) _)
]

-- The candidates are, of the nearest agents in the radius, four times as many as are asked for, those
-- that are online and free: the nearest of these, as many as are asked for.
pub find_candidates_lem :
    (cfg : DeliveryEnv) (nearby : List ℕ) (r : Redis)
    → 0 < cfg.candidates
    → find_candidates cfg nearby r
      ≡ take cfg.candidates (select_where (is_free r) (take (4 * cfg.candidates) nearby))
unfolding find_candidates
find_candidates_lem cfg nearby r h =
    let back : suc (cfg.candidates - 1) ≡ cfg.candidates = omega arith in
    let e : cfg.candidates ≡ 0 + suc (cfg.candidates - 1) = omega arith in
    let scanned : cfg.candidates * 4 ≡ 4 * cfg.candidates = omega arith in
    let raw = take (cfg.candidates * 4) nearby in
    collect_lem (cfg.candidates - 1) cfg.candidates r [] raw e
    ∙ ap (λ n. take n (select_where (is_free r) raw)) back
    ∙ ap (λ n. take cfg.candidates (select_where (is_free r) (take n nearby))) scanned

abbrev pub offers_of : Env → DeliveryEnv → OrderEntity → List ℕ → List (Room × Notice)
offers_of env cfg order agents =
    map (λ a. (agent_room a, task_offered order (env.now + cfg.offer_ttl_sec * 1000))) agents

send_offers_lem :
    (env : Env) (cfg : DeliveryEnv) (order : OrderEntity) (agents : List ℕ) (w : World)
    → send_offers env cfg order agents w
      ≡ (ok tt, record w { sent = w.sent ++ offers_of env cfg order agents })
unfolding send_offers
send_offers_lem env cfg order [] w = rw append-nil
send_offers_lem env cfg order (a ∷ agents) w =
    send_offers_lem env cfg order agents _ ∙ rw append_assoc

-- The world after an order is offered to agents.
abbrev pub after_offer : Env → DeliveryEnv → OrderEntity → List ℕ → World → World
after_offer env cfg order agents w = record w {
  redis = count_attempt order.public_id (set_offer order.public_id agents w.redis);
  sent = w.sent ++ offers_of env cfg order agents;
}

offer_to_lem :
    (env : Env) (cfg : DeliveryEnv) (order : OrderEntity) (a : ℕ) (agents : List ℕ) (w : World)
    → offer_to env cfg order (a ∷ agents) w ≡ (ok offered, after_offer env cfg order (a ∷ agents) w)
offer_to_lem env cfg order a agents w = rw (
    send_offers_lem env cfg order (a ∷ agents) (record w {
      redis = count_attempt order.public_id (set_offer order.public_id (a ∷ agents) w.redis);
    }))

offer_to-attempts :
    (env : Env) (cfg : DeliveryEnv) (order : OrderEntity) (agents : List ℕ) (id : Text) (w : World)
    → (offer_to env cfg order agents w).1.redis.attempts id
      ≡ put order.public_id (suc (w.redis.attempts order.public_id)) w.redis.attempts id
offer_to-attempts env cfg order [] id w = refl
offer_to-attempts env cfg order (a ∷ agents) id w = rw (offer_to_lem env cfg order a agents w)

-- The number of attempts on record for an order stays within the cap.
pub try_assign-attempts :
    (env : Env) (cfg : DeliveryEnv) (raw : List ℕ) (order : OrderEntity) (id : Text) (w : World)
    → w.redis.attempts id ≤ cfg.max_attempts
    → (try_assign env cfg raw order w).1.redis.attempts id ≤ cfg.max_attempts
unfolding try_assign
try_assign-attempts env cfg raw order id w h =
    ground (arith, offer_to-attempts env cfg order (find_candidates cfg raw w.redis) id w)

-- An order with no offer out and fewer attempts than the cap is offered, if one of the nearest agents
-- in the radius, four times as many as are asked for, is online and free: to the nearest of those
-- that are, as many as are asked for, and to nobody else; what the tables hold does not change.
pub try_assign-offers :
    (env : Env) (cfg : DeliveryEnv) (nearby : List ℕ) (order : OrderEntity) (w : World) (a : ℕ)
    (agents : List ℕ)
    → 0 < cfg.candidates
    → w.redis.offer order.public_id ≡ none
    → w.redis.attempts order.public_id < cfg.max_attempts
    → take cfg.candidates (select_where (is_free w.redis) (take (4 * cfg.candidates) nearby))
      ≡ a ∷ agents
    → try_assign env cfg nearby order w ≡ (ok offered, after_offer env cfg order (a ∷ agents) w)
unfolding try_assign
try_assign-offers env cfg nearby order w a agents some_wanted quiet few near =
    let under : leb cfg.max_attempts (w.redis.attempts order.public_id) ≡ false = ground arith in
    rw (quiet, under, find_candidates_lem cfg nearby w.redis some_wanted, near)
      (offer_to_lem env cfg order a agents w)
