-- ===== src/Auth/Guards.antt =====
-- The guards before a route: lib/auth/rbac.ts. The parameters of a request are numbers already, as
-- `Number` makes them.
pub mod Tenants
use quickbite_order_service.Prelude.{
  ℕ, ◌&&◌, Bool, true, false, not, Option, none, some, List, [], ◌∷◌, ◌==◌, if◌then◌else◌,
}
use quickbite_order_service.Prelude.Text.{Text, codes, text_eq}
use quickbite_order_service.Order.Access.{
  Role, role_is_system_admin, role_is_restaurant_user, role_is_delivery_agent, is_number,
  ActorContext,
}
use quickbite_order_service.Order.Repo.{contains_id}
use quickbite_order_service.Auth.Permissions.{
  PermissionCache, PermissionEnv, get_permissions, has_permission,
}

-- The payload of the token: `req.user`.
pub record JwtPayload : Type 0 where
  pub user_id : ℕ
  pub role : Role
  pub restaurant_id : Option ℕ
  pub restaurant_role : Option Text
  pub branch_ids : Option (List ℕ)

-- `Number(text)`: no number, a number that is no id (negative or fractional), or a natural number.
pub data NumberParam : Type 0 where
  not_a_number : NumberParam
  no_id : NumberParam
  natural : ℕ → NumberParam

-- A guard hands the request on, answers it with a status, or throws.
pub data Verdict : Type 0 where
  next : Verdict
  answered : ℕ → Verdict
  thrown : Verdict

unfoldable require_agent : Option JwtPayload → Verdict
require_agent none = answered 401
require_agent (some user) = if not (role_is_delivery_agent user.role) then answered 403 else next

pub record RbacOptions : Type 0 where
  pub resource : Text
  pub action : Text
  pub allow_system_admin : Bool

-- The permissions of a missing role are asked for under the name `undefined`.
abbrev role_name : Option Text → Text
role_name none = codes "undefined"
role_name (some name) = name

unfoldable pub decide_permission : RbacOptions → Option (List Text) → Verdict
decide_permission options none = thrown
decide_permission options (some permissions) =
    if not (has_permission permissions options.resource options.action) then answered 403 else next

unfoldable pub rbac :
    PermissionEnv → RbacOptions → Option JwtPayload → PermissionCache → Verdict × PermissionCache
rbac env options none cache = (thrown, cache)
rbac env options (some user) cache =
    let found = get_permissions env (role_name user.restaurant_role) cache in
    if options.allow_system_admin && role_is_system_admin user.role
    then (next, cache)
    else if role_is_restaurant_user user.role
    then (decide_permission options found.0, found.1)
    else (answered 403, cache)

abbrev pub user_is_admin : Option JwtPayload → Bool
user_is_admin none = false
user_is_admin (some user) = role_is_system_admin user.role

abbrev pub user_restaurant : Option JwtPayload → Option ℕ
user_restaurant none = none
user_restaurant (some user) = user.restaurant_id

-- A parameter that is no number or 0 is missing.
unfoldable pub require_restaurant_member : NumberParam → Option JwtPayload → Verdict
require_restaurant_member not_a_number user = answered 400
require_restaurant_member no_id user = if user_is_admin user then next else answered 403
require_restaurant_member (natural id) user =
    if id == 0
    then answered 400
    else if user_is_admin user
    then next
    else if not (is_number (user_restaurant user) id)
    then answered 403
    else next

abbrev pub user_is_owner : Option JwtPayload → Bool
user_is_owner none = false
user_is_owner (some user) = elim user.restaurant_role [
  | none ↦ false
  | some name ↦ text_eq name (codes "owner")
]

abbrev pub user_has_branch : Option JwtPayload → ℕ → Bool
user_has_branch none id = false
user_has_branch (some user) id = elim user.branch_ids [
  | none ↦ false
  | some ids ↦ contains_id ids id
]

-- `Number(req.params[…]) || Number(req.query[…])`.
abbrev or_param : NumberParam → NumberParam → NumberParam
or_param not_a_number other = other
or_param no_id other = no_id
or_param (natural id) other = if id == 0 then other else natural id

unfoldable pub check_branch : NumberParam → Option JwtPayload → Verdict
check_branch not_a_number user = next
check_branch no_id user = answered 403
check_branch (natural id) user =
    if id == 0 then next else if not (user_has_branch user id) then answered 403 else next

unfoldable pub require_branch_access : NumberParam → NumberParam → Option JwtPayload → Verdict
require_branch_access param query user =
    if user_is_admin user
    then next
    else if user_is_owner user
    then next
    else check_branch (or_param param query) user
