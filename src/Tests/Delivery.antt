-- ===== src/Tests/Delivery.antt =====
-- Runs of the flow of a delivery: offers, claims and going offline.
use quickbite_order_service.Prelude.{ℕ, ◌≡◌, ◌⊎◌, ◌≤◌, refl, none, some, List, [], ◌∷◌, take, arith}
use quickbite_order_service.Prelude.Text.{text_eq}
use quickbite_order_service.Prelude.Rows.{find_where, select_where}
use quickbite_order_service.Order.Enums.{ready, assigned, picked, cod}
use quickbite_order_service.Order.Entity.{OrderEntity}
use quickbite_order_service.Order.Repo.{is_held_by}
use quickbite_order_service.Agent.Presence.{go_offline}
use quickbite_order_service.Assignment.Offers.{
  DeliveryEnv, offered, is_free, find_candidates, try_assign,
}
use quickbite_order_service.Assignment.Offers.Candidates.{
  after_offer, find_candidates_lem, try_assign-attempts, try_assign-offers,
}
use quickbite_order_service.Assignment.Claims.{claim, admin_assign}
use quickbite_order_service.Assignment.Claims.Announce.{theirs}
use quickbite_order_service.Assignment.Claims.Exclusive.{
  Claims, IsUnclaimed, claimed_world, after_claim, claim_atomic, claim-exclusive,
}
use quickbite_order_service.Assignment.Claims.Offline.{after_offline, go_offline-holds_nothing}
use quickbite_order_service.Prelude.{true, false}
use quickbite_order_service.Store.{World, AppError, ok, err, infrastructure, offline_while_picked}
use quickbite_order_service.Tests.Data.{env_1, env_2, order_id_1, order_in, world_of}

abbrev config_1 : DeliveryEnv
config_1 = record { candidates = 2; offer_ttl_sec = 30; max_attempts = 3; batch = 10 }

abbrev order_1 : OrderEntity
order_1 = order_in ready cod none

abbrev quiet_world : World
quiet_world = world_of order_1 none none

abbrev offered_world : World
offered_world = world_of order_1 (some (8 ∷ 9 ∷ [])) none

find_candidates_lem_example :
    find_candidates config_1 (8 ∷ 9 ∷ 10 ∷ []) quiet_world.redis
    ≡ take 2 (select_where (is_free quiet_world.redis) (take 8 (8 ∷ 9 ∷ 10 ∷ [])))
find_candidates_lem_example =
    find_candidates_lem config_1 (8 ∷ 9 ∷ 10 ∷ []) quiet_world.redis (omega arith)

try_assign-attempts_example :
    (try_assign env_1 config_1 (8 ∷ []) order_1 quiet_world).1.redis.attempts order_id_1 ≤ 3
try_assign-attempts_example =
    try_assign-attempts env_1 config_1 (8 ∷ []) order_1 order_id_1 quiet_world (omega arith)

try_assign-offers_example :
    try_assign env_1 config_1 (8 ∷ 9 ∷ 10 ∷ []) order_1 quiet_world
    ≡ (ok offered, after_offer env_1 config_1 order_1 (8 ∷ 9 ∷ []) quiet_world)
try_assign-offers_example =
    try_assign-offers env_1 config_1 (8 ∷ 9 ∷ 10 ∷ []) order_1 quiet_world 8 (9 ∷ []) (omega arith)
      refl (omega arith) refl

claim_atomic_example :
    ((order : OrderEntity) × (ids : List ℕ) × Claims env_1 order_id_1 8 offered_world order ids
      × (((false ≡ false)
            × (claim env_1 order_id_1 8 offered_world ≡ (
              ok (theirs 8 5000 order),
              after_claim env_1 order_id_1 8 offered_world order ids,
            )))
          ⊎ ((false ≡ true)
              × ((v : World) × (claim env_1 order_id_1 8 offered_world ≡ (err infrastructure, v))
                  × (v.db ≡ (claimed_world env_1 order_id_1 8 offered_world).db)
                  × (v.redis.claim
                      ≡ (claimed_world env_1 order_id_1 8 offered_world).redis.claim)))))
    ⊎ ((e : AppError) × (v : World) × (claim env_1 order_id_1 8 offered_world ≡ (err e, v))
        × IsUnclaimed env_1 order_id_1 v offered_world)
claim_atomic_example = claim_atomic env_1 order_id_1 8 offered_world

Claims-order_1 : Claims env_1 order_id_1 8 offered_world order_1 (8 ∷ 9 ∷ [])
unfolding text_eq
Claims-order_1 = record {
  out = refl;
  named = refl;
  unlocked = refl;
  waiting = refl;
  committed = refl;
}

claim-exclusive_example :
    ((e : AppError) × ((claim env_2 order_id_1 9 (claim env_1 order_id_1 8 offered_world).1).0
        ≡ err e))
    × ((e : AppError) × ((admin_assign env_2 order_id_1 9
            (claim env_1 order_id_1 8 offered_world).1).0
          ≡ err e))
claim-exclusive_example =
    claim-exclusive env_1 env_2 order_id_1 8 9 offered_world
      (claim env_1 order_id_1 8 offered_world).1 order_1 (8 ∷ 9 ∷ []) Claims-order_1 refl

abbrev order_2 : OrderEntity
order_2 = order_in assigned cod (some 8)

abbrev held_world : World
held_world = world_of order_2 none (some 8)

go_offline-holds_nothing_example :
    ((order : OrderEntity) × (find_where (is_held_by 8 picked) held_world.db.orders ≡ some order)
      × (go_offline env_1 8 held_world ≡ (err offline_while_picked, held_world)))
    ⊎ ((find_where (is_held_by 8 picked) held_world.db.orders ≡ none)
        × (go_offline env_1 8 held_world ≡ (ok tt, after_offline env_1 8 held_world))
        × (find_where (is_held_by 8 assigned) (after_offline env_1 8 held_world).db.orders ≡ none)
        × (find_where (is_held_by 8 picked) (after_offline env_1 8 held_world).db.orders ≡ none))
go_offline-holds_nothing_example = go_offline-holds_nothing env_1 8 held_world

-- The order was offered once more.
abbrev reoffered_world : World
reoffered_world = world_of order_2 (some (9 ∷ [])) (some 8)
