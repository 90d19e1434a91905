-- ===== src/Agent/Service.antt =====
-- `AgentService` of app/agent/service/agent.service.ts: the steps of a delivery.
pub mod PickUp
use quickbite_order_service.Prelude.{ℕ, not, Option, some}
use quickbite_order_service.Prelude.Text.{Text}
use quickbite_order_service.Order.Enums.{OrderStatus, delivered, picked, assigned, status_eq}
use quickbite_order_service.Order.Entity.{OrderEntity}
use quickbite_order_service.Order.Status.{picked_at}
use quickbite_order_service.Order.Repo.{find_order_by_public_id, update_order_status}
use quickbite_order_service.Order.Access.{is_number}
use quickbite_order_service.Agent.Settlement.{settle_delivered}
use quickbite_order_service.Assignment.Claims.{claim}
use quickbite_order_service.Store.{
  Env, Action, order_not_found, not_your_task, order_not_in_assigned_state,
  invalid_agent_transition, throw, throw_if, or_throw, transaction, emit, pure, customer_room,
  branch_room, status_changed, ◌>>=◌, ◌>>◌,
}

unfoldable pub accept : Env → Text → ℕ → Action OrderEntity
accept env public_id agent_id = claim env public_id agent_id

unfoldable pub pick_up : Env → Text → ℕ → Action OrderEntity
pick_up env public_id agent_id = do
  order ← or_throw (← find_order_by_public_id public_id) order_not_found
  throw_if (not (is_number order.delivery_agent_id agent_id)) not_your_task
  throw_if (not (status_eq order.status assigned)) order_not_in_assigned_state
  updated ← transaction env (update_order_status env public_id picked (some picked_at))
  emit (customer_room updated.customer_id) (status_changed updated)
  emit (branch_room updated.branch_id) (status_changed updated)
  pure updated

unfoldable pub transition : Env → ℕ → Option ℕ → Text → ℕ → Text → OrderStatus → Action OrderEntity
transition env share_bps commission_bps public_id agent_id region delivered =
    settle_delivered env share_bps commission_bps public_id agent_id region
transition env share_bps commission_bps public_id agent_id region picked =
    pick_up env public_id agent_id
transition env share_bps commission_bps public_id agent_id region _ = throw invalid_agent_transition
