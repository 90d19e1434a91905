-- ===== src/Assignment/Claims/Offline.antt =====
-- What becomes of the order of an agent who goes offline.
use quickbite_order_service.Prelude.{
  ℕ, ◌≡◌, refl, ◌⊎◌, true, false, none, some, arith, Option-cases, inl, inr, ◌∙◌,
}
use quickbite_order_service.Prelude.Text.{Text}
use quickbite_order_service.Prelude.Rows.{
  find_where, update_where, find_where-update_gone, find_where-update_other,
}
use quickbite_order_service.Order.Enums.{assigned, picked}
use quickbite_order_service.Order.Entity.{OrderEntity}
use quickbite_order_service.Order.Repo.{is_held_by, released, release_assigned_order_to_ready}
use quickbite_order_service.Agent.Presence.{go_offline, set_at}
use quickbite_order_service.Store.{Env, World, ok, err, offline_while_picked, throw_if}
use quickbite_order_service.Store.Laws.{steps}

-- The world after an agent has gone offline.
abbrev pub after_offline : Env → ℕ → World → World
after_offline env agent_id w = record w {
  db = record w.db {
    orders = update_where (is_held_by agent_id assigned) (released env.now) w.db.orders;
  };
  redis = record w.redis {
    online = set_at agent_id false w.redis.online;
    located = set_at agent_id false w.redis.located;
    busy = set_at agent_id false w.redis.busy;
  };
}

go_offline_lem :
    (env : Env) (agent_id : ℕ) (w : World)
    → find_where (is_held_by agent_id picked) w.db.orders ≡ none
    → go_offline env agent_id w ≡ (ok tt, after_offline env agent_id w)
unfolding go_offline release_assigned_order_to_ready
go_offline_lem env agent_id w h = rw (go_offline, steps, h, throw_if)

released-free :
    (agent_id now : ℕ) (o : OrderEntity) → is_held_by agent_id assigned (released now o) ≡ false
unfolding released
released-free agent_id now o = refl

released-unpicked :
    (agent_id now : ℕ) (o : OrderEntity) → is_held_by agent_id picked (released now o) ≡ false
unfolding released
released-unpicked agent_id now o = refl

assigned-unpicked :
    (agent_id : ℕ) (o : OrderEntity)
    → is_held_by agent_id assigned o ≡ true
    → is_held_by agent_id picked o ≡ false
assigned-unpicked agent_id o h = ground arith

-- Either the agent carries a picked order, and going offline is refused with nothing changed; or the
-- agent carries none, and it goes through, and then the agent holds no order, assigned or picked.
pub go_offline-holds_nothing :
    (env : Env) (agent_id : ℕ) (w : World)
    → ((order : OrderEntity) × (find_where (is_held_by agent_id picked) w.db.orders ≡ some order)
        × (go_offline env agent_id w ≡ (err offline_while_picked, w)))
      ⊎ ((find_where (is_held_by agent_id picked) w.db.orders ≡ none)
          × (go_offline env agent_id w ≡ (ok tt, after_offline env agent_id w))
          × (find_where (is_held_by agent_id assigned) (after_offline env agent_id w).db.orders
              ≡ none)
          × (find_where (is_held_by agent_id picked) (after_offline env agent_id w).db.orders
              ≡ none))
unfolding go_offline
go_offline-holds_nothing env agent_id w =
    elim (Option-cases (find_where (is_held_by agent_id picked) w.db.orders)) [
      | inr (o, h) ↦ inl (o, h, rw (go_offline, steps, h, throw_if))
      | inl h ↦ inr (
        h,
        go_offline_lem env agent_id w h,
        find_where-update_gone (is_held_by agent_id assigned) (released env.now) w.db.orders
            (released-free agent_id env.now),
        find_where-update_other (is_held_by agent_id assigned) (is_held_by agent_id picked)
              (released env.now) w.db.orders (assigned-unpicked agent_id)
              (λ o e. released-unpicked agent_id env.now o)
            ∙ h,
      )
    ]
