-- ===== src/Agent/Presence.antt =====
-- `PresenceService` of app/agent/service/presence.service.ts. The position and the time of a ping are
-- not kept: an agent is online while the key of a ping lives.
use quickbite_order_service.Prelude.{ℕ, Bool, true, false, ◌==◌, if◌then◌else◌, is_some}
use quickbite_order_service.Prelude.Rows.{find_where}
use quickbite_order_service.Order.Enums.{picked}
use quickbite_order_service.Order.Repo.{is_held_by, release_assigned_order_to_ready}
use quickbite_order_service.Store.{
  Env, Action, query, modify_redis, throw_if, offline_while_picked, ◌>>=◌, ◌>>◌,
}

abbrev pub set_at : ℕ → Bool → (ℕ → Bool) → ℕ → Bool
set_at agent_id b f a = if a == agent_id then b else f a

unfoldable pub upsert : ℕ → Action (Unit {0})
upsert agent_id = modify_redis (λ r. record r {
  online = set_at agent_id true r.online;
  located = set_at agent_id true r.located;
})

unfoldable pub mark_busy : ℕ → Action (Unit {0})
mark_busy agent_id = modify_redis (λ r. record r { busy = set_at agent_id true r.busy })

unfoldable pub clear_busy : ℕ → Action (Unit {0})
clear_busy agent_id = modify_redis (λ r. record r { busy = set_at agent_id false r.busy })

-- An agent with a picked order is refused; one with an assigned order gives it back.
unfoldable pub go_offline : Env → ℕ → Action (Unit {0})
go_offline env agent_id = do
  stuck ← query (λ db. is_some (find_where (is_held_by agent_id picked) db.orders))
  throw_if stuck offline_while_picked
  release_assigned_order_to_ready env agent_id
  modify_redis (λ r. record r {
    online = set_at agent_id false r.online;
    located = set_at agent_id false r.located;
    busy = set_at agent_id false r.busy;
  })
