-- ===== src/Assignment/Claims/Announce.antt =====
-- What follows the commit of a claim: `announce_claim`, whole or cut off.
use mathlib.Core.List.{append-nil, append_assoc}
use quickbite_order_service.Prelude.{
  some, ℕ, ◌≡◌, refl, Bool, true, false, ◌&&◌, ◌||◌, List, [], ◌∷◌, arith, ◌++◌, map, Bool-cases,
  inl, inr, ◌∙◌,
}
use quickbite_order_service.Prelude.Text.{Text}
use quickbite_order_service.Order.Entity.{OrderEntity}
use quickbite_order_service.Order.Enums.{assigned}
use quickbite_order_service.Order.Repo.{has_public_id, is_claimable}
use quickbite_order_service.Agent.Presence.{mark_busy, set_at}
use quickbite_order_service.Assignment.Claims.{drop_offer, cancel_offers, announce_claim}
use quickbite_order_service.Store.{
  Env, World, ok, err, attempt, Room, Notice, agent_room, customer_room, branch_room, task_assigned,
  status_changed, offer_cancelled, infrastructure,
}
use quickbite_order_service.Store.Laws.{steps}

-- The order waits for an agent.
abbrev pub is_open : Text → OrderEntity → Bool
is_open public_id o = has_public_id public_id o && is_claimable o

-- The order once it is the agent's.
abbrev pub theirs : ℕ → ℕ → OrderEntity → OrderEntity
theirs agent_id now o = record o {
  status = assigned;
  delivery_agent_id = some agent_id;
  assigned_at = some now;
  updated_at = now;
}

pub claimed-closed :
    (public_id : Text) (agent_id now : ℕ) (o : OrderEntity)
    → is_open public_id (theirs agent_id now o) ≡ false
claimed-closed public_id agent_id now o = ground arith

abbrev cancels_of : Text → List ℕ → List (Room × Notice)
cancels_of public_id losers = map (λ loser. (agent_room loser, offer_cancelled public_id)) losers

cancel_offers_lem :
    (public_id : Text) (losers : List ℕ) (w : World)
    → cancel_offers public_id losers w
      ≡ (ok tt, record w { sent = w.sent ++ cancels_of public_id losers })
unfolding cancel_offers
cancel_offers_lem public_id [] w = rw append-nil
cancel_offers_lem public_id (loser ∷ losers) w =
    cancel_offers_lem public_id losers _ ∙ rw append_assoc

abbrev pub announced : Text → ℕ → List ℕ → OrderEntity → World → World
announced public_id agent_id losers o w = record w {
  redis = drop_offer public_id (record w.redis { busy = set_at agent_id true w.redis.busy });
  sent =
      (((w.sent ++ (agent_room agent_id, task_assigned o) ∷ []) ++ cancels_of public_id losers)
        ++ (customer_room o.customer_id, status_changed o) ∷ [])
      ++ (branch_room o.branch_id, status_changed o) ∷ [];
}

-- The announcement up to the drop of the offer.
abbrev unfinished : Text → ℕ → List ℕ → OrderEntity → World → World
unfinished public_id agent_id losers o w = record (announced public_id agent_id losers o w) {
  redis = record w.redis { busy = set_at agent_id true w.redis.busy };
}

pub announce_claim_lem :
    (env : Env) (public_id : Text) (agent_id : ℕ) (losers : List ℕ) (o : OrderEntity) (w : World)
    → env.is_failing 1 ≡ false
    → env.is_failing 2 ≡ false
    → announce_claim env public_id agent_id losers o w
      ≡ (ok o, announced public_id agent_id losers o w)
unfolding announce_claim mark_busy
announce_claim_lem env public_id agent_id losers o w f g =
    rw (announce_claim, attempt, f, steps, cancel_offers_lem, attempt, g)

-- The announcement is cut off where Redis fails; the tables and the locks are not its business.
pub announce_claim-cut :
    (env : Env) (public_id : Text) (agent_id : ℕ) (losers : List ℕ) (o : OrderEntity) (w : World)
    → env.is_failing 1 || env.is_failing 2 ≡ true
    → (v : World) × (announce_claim env public_id agent_id losers o w ≡ (err infrastructure, v))
      × (v.db ≡ w.db)
      × (v.redis.claim ≡ w.redis.claim)
unfolding announce_claim mark_busy
announce_claim-cut env public_id agent_id losers o w h = elim (Bool-cases (env.is_failing 1)) [
  | inl f ↦ (w, rw (announce_claim, attempt, f, steps), refl, refl)
  | inr f ↦
      let g : env.is_failing 2 ≡ true = ground arith in
      (
        unfinished public_id agent_id losers o w,
        rw (announce_claim, attempt, f, steps, cancel_offers_lem, attempt, g),
        refl,
        refl,
      )
]
