-- ===== src/Agent/Settlement/Bypass.antt =====
-- The other way to `delivered`: `OrderService.updateStatus` takes an agent there without a settlement.
use quickbite_order_service.Prelude.{ℕ, ◌≡◌, refl, true, none, some, arith}
use quickbite_order_service.Prelude.Text.{Text}
use quickbite_order_service.Prelude.Rows.{find_where}
use quickbite_order_service.Order.Enums.{agent, picked, delivered}
use quickbite_order_service.Order.Entity.{OrderEntity}
use quickbite_order_service.Order.Status.Diagram.{edges}
use quickbite_order_service.Order.Status.Rules.{Allowed}
use quickbite_order_service.Order.Repo.{has_public_id}
use quickbite_order_service.Order.Access.{ActorContext, delivery_agent, resolve_status_actor}
use quickbite_order_service.Order.Service.{
  UpdateOrderStatusRequest, transition_context, update_status,
}
use quickbite_order_service.Order.Service.UpdateStatus.{Accepts, arrived, update_status-Accepts}
use quickbite_order_service.Store.{Env, World, ok}

abbrev pub deliver_request : UpdateOrderStatusRequest
deliver_request = record { status = delivered; reason = none }

resolved_agent :
    (actor : ActorContext) (order : OrderEntity)
    → actor.role ≡ delivery_agent
    → order.delivery_agent_id ≡ some actor.user_id
    → resolve_status_actor actor order ≡ ok agent
unfolding resolve_status_actor
resolved_agent actor order r h = ground arith

Allowed-agent :
    (now : ℕ) (order : OrderEntity)
    → order.status ≡ picked
    → Allowed now order.status delivered (transition_context agent none order)
unfolding transition_context
Allowed-agent now order h = record {
  edge = rw h (search edges);
  explained = λ e. absurd (ground arith);
  unaccepted = λ e. absurd (ground arith);
  in_window = λ t e. absurd (ground arith);
}

-- An agent who holds a picked order can ask for `delivered` on the status endpoint of orders. The
-- order is delivered, and nothing is settled: no transaction, no balance and no earning is written.
pub update_status-unsettled :
    (env : Env) (actor : ActorContext) (public_id : Text) (w : World) (order : OrderEntity)
    → find_where (has_public_id public_id) w.db.orders ≡ some order
    → order.status ≡ picked
    → actor.role ≡ delivery_agent
    → order.delivery_agent_id ≡ some actor.user_id
    → env.is_committed ≡ true
    → let r = update_status env actor public_id deliver_request w in
      (r.0
        ≡ ok (record order {
          status = delivered;
          delivered_at = some env.now;
          updated_at = env.now;
        }))
      × (r.1.db.transactions ≡ w.db.transactions)
      × (r.1.db.restaurant_balances ≡ w.db.restaurant_balances)
      × (r.1.db.agent_earnings ≡ w.db.agent_earnings)
unfolding arrived
update_status-unsettled env actor public_id w order found status role held committed =
    let acc : Accepts env actor public_id deliver_request w order agent = record {
      found = found;
      resolved = resolved_agent actor order role held;
      allowed = Allowed-agent env.now order status;
      committed = committed;
    } in
    rw (update_status-Accepts env actor public_id deliver_request w order agent acc)
      (refl, refl, refl, refl)
