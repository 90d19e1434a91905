-- ===== src/Order/Access.antt =====
-- Who may read an order, and as whom an actor drives it: `ActorContext`, `assertReadAccess` and
-- `resolveStatusActor` of app/order/service/order.service.ts.
pub mod Laws
use quickbite_order_service.Prelude.{
  ℕ, Bool, true, false, ◌&&◌, not, Option, none, some, List, [], ◌∷◌, ◌==◌, if◌then◌else◌,
}
use quickbite_order_service.Order.Enums.{StatusActor, customer, restaurant_member, agent, admin}
use quickbite_order_service.Order.Entity.{OrderEntity}
use quickbite_order_service.Order.Repo.{contains_id}
use quickbite_order_service.Store.{Result, ok, err, un_authorised}

-- The roles that the service tells apart; `other_role` is every other text.
pub data Role : Type 0 where
  system_admin restaurant_user delivery_agent other_role : Role

pub record ActorContext : Type 0 where
  pub user_id : ℕ
  pub role : Role
  pub restaurant_id : Option ℕ
  pub is_owner : Bool  -- restaurantRole === "owner"
  pub branch_ids : Option (List ℕ)

-- `Number(x) === n` for an `x` that may be missing: `Number(undefined)` is no number.
abbrev pub is_number : Option ℕ → ℕ → Bool
is_number none n = false
is_number (some m) n = m == n

-- `Number(x)` for an `x` that may be `null`, which counts as 0.
abbrev pub number_or_zero : Option ℕ → ℕ
number_or_zero none = 0
number_or_zero (some n) = n

-- `(actor.branchIds ?? []).includes(id)`.
abbrev pub has_branch : ActorContext → ℕ → Bool
has_branch actor id = elim actor.branch_ids [ none ↦ false | some ids ↦ contains_id ids id ]

abbrev pub role_is_system_admin : Role → Bool
role_is_system_admin system_admin = true
role_is_system_admin _ = false

abbrev pub role_is_restaurant_user : Role → Bool
role_is_restaurant_user restaurant_user = true
role_is_restaurant_user _ = false

abbrev pub role_is_delivery_agent : Role → Bool
role_is_delivery_agent delivery_agent = true
role_is_delivery_agent _ = false

unfoldable pub assert_read_access : ActorContext → OrderEntity → Result (Unit {0})
assert_read_access actor order =
    if role_is_system_admin actor.role
    then ok tt
    else if actor.user_id == order.customer_id
    then ok tt
    else if role_is_restaurant_user actor.role
    then if not (is_number actor.restaurant_id order.restaurant_id)
      then err un_authorised
      else if actor.is_owner
      then ok tt
      else if has_branch actor order.branch_id
      then ok tt
      else err un_authorised
    else err un_authorised

unfoldable pub resolve_status_actor : ActorContext → OrderEntity → Result StatusActor
resolve_status_actor actor order =
    if role_is_system_admin actor.role
    then ok admin
    else if role_is_delivery_agent actor.role
        && actor.user_id == number_or_zero order.delivery_agent_id
    then ok agent
    else if role_is_restaurant_user actor.role
    then if not (is_number actor.restaurant_id order.restaurant_id)
      then err un_authorised
      else if not actor.is_owner && not (has_branch actor order.branch_id)
      then err un_authorised
      else ok restaurant_member
    else if actor.user_id == order.customer_id
    then ok customer
    else err un_authorised
