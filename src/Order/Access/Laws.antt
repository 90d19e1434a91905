-- ===== src/Order/Access/Laws.antt =====
-- The access checks against a relation that says who an actor is to an order.
use quickbite_order_service.Prelude.{true, some, ◌≡◌, ◌≢◌, ◌↔◌, ◌⊎◌, arith}
use quickbite_order_service.Order.Enums.{StatusActor, restaurant_member, agent, system, admin}
use quickbite_order_service.Order.Entity.{OrderEntity}
use quickbite_order_service.Order.Access.{
  system_admin, restaurant_user, delivery_agent, ActorContext, has_branch, assert_read_access,
  resolve_status_actor,
}
use quickbite_order_service.Store.{ok}

-- A user of the order's restaurant who owns it or works in the order's branch.
pub record IsMember (actor : ActorContext) (order : OrderEntity) : Type 0 where
  pub is_user : actor.role ≡ restaurant_user
  pub same_restaurant : actor.restaurant_id ≡ some order.restaurant_id
  pub reaches : (actor.is_owner ≡ true) ⊎ (has_branch actor order.branch_id ≡ true)

-- An order can be read exactly by system administrators, by its customer, and by the members of
-- its restaurant who own it or work in its branch.
pub assert_read_access_iff :
    (actor : ActorContext) (order : OrderEntity)
    → (assert_read_access actor order ≡ ok tt)
      ↔ ((actor.role ≡ system_admin) ⊎ (actor.user_id ≡ order.customer_id) ⊎ IsMember actor order)
unfolding assert_read_access
assert_read_access_iff actor order = (λ h. ground arith, λ h. ground arith)

-- No actor of a request counts as the system.
pub resolve_status_actor-ne_system :
    (actor : ActorContext) (order : OrderEntity) {a : StatusActor}
    → resolve_status_actor actor order ≡ ok a
    → a ≢ system
unfolding resolve_status_actor
resolve_status_actor-ne_system actor order h e = ground arith

-- An actor counts as a member of the restaurant exactly if they are one who reaches the branch; as
-- the administrator exactly by role; and as the agent only with the agent's role, on an order that
-- is theirs, if their number is not 0.
pub resolve_status_actor_sound :
    (actor : ActorContext) (order : OrderEntity)
    → ((resolve_status_actor actor order ≡ ok restaurant_member) ↔ IsMember actor order)
      × ((resolve_status_actor actor order ≡ ok admin) ↔ (actor.role ≡ system_admin))
      × (resolve_status_actor actor order ≡ ok agent
          → actor.user_id ≢ 0
          → (actor.role ≡ delivery_agent) × (order.delivery_agent_id ≡ some actor.user_id))
unfolding resolve_status_actor
resolve_status_actor_sound actor order = (
  (λ h. ground arith, λ h. ground arith),
  (λ h. ground arith, λ h. ground arith),
  λ h z. ground arith,
)
