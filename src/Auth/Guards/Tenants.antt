-- ===== src/Auth/Guards/Tenants.antt =====
-- Whose orders a request gets to see that the guards have handed on.
use mathlib.Core.Path.{subst}
use quickbite_order_service.Prelude.{
  ℕ, ◌≡◌, ◌≢◌, refl, ap, sym, Bool, true, false, not, ◌⊎◌, inl, inr, Option, none, some, List, All,
  ◌==◌, if◌then◌else◌, arith, ==_iff,
}
use quickbite_order_service.Prelude.Sort.{All-weaken}
use quickbite_order_service.Http.Pagination.{PaginationParams}
use quickbite_order_service.Http.Filters.{FilterParams}
use quickbite_order_service.Order.Access.{role_is_system_admin, is_number}
use quickbite_order_service.Order.Reads.{
  ListEnv, ListRestaurantOrdersFilter, OrderList, list_restaurant_orders,
}
use quickbite_order_service.Order.Reads.Scope.{IsBranchSummary, list_restaurant_orders-Scoped}
use quickbite_order_service.Auth.Guards.{
  JwtPayload, NumberParam, natural, next, answered, require_restaurant_member,
  require_branch_access, check_branch, user_is_owner, user_has_branch, or_param,
}
use quickbite_order_service.Store.{World, ok}

-- A user who may see the orders of a branch of a restaurant.
abbrev pub MaySee : JwtPayload → ℕ → ℕ → Type 0
MaySee user restaurant_id branch_id =
    (role_is_system_admin user.role ≡ true)
    ⊎ ((user.restaurant_id ≡ some restaurant_id)
        × ((user_is_owner (some user) ≡ true) ⊎ (user_has_branch (some user) branch_id ≡ true)))

member_let_through :
    (zero admin member : Bool)
    → (if zero
        then answered 400
        else if admin
        then next
        else if not member
        then answered 403
        else next)
      ≡ next
    → (admin ≡ true) ⊎ (member ≡ true)
member_let_through true admin member h = cc
member_let_through false true member h = inl refl
member_let_through false false true h = inr refl
member_let_through false false false h = cc

branch_let_through :
    (admin owner has : Bool)
    → (if admin then next else if owner then next else if not has then answered 403 else next)
      ≡ next
    → (admin ≡ true) ⊎ ((owner ≡ true) ⊎ (has ≡ true))
branch_let_through true owner has h = inl refl
branch_let_through false true has h = inr (inl refl)
branch_let_through false false true h = inr (inr refl)
branch_let_through false false false h = cc

number_is : (o : Option ℕ) (id : ℕ) → is_number o id ≡ true → o ≡ some id
number_is none id h = cc
number_is (some n) id h = ap some ((==_iff n id).0 h)

-- The guard of the restaurant lets admins and members through.
require_restaurant_member_sound :
    (id : ℕ) (user : JwtPayload)
    → require_restaurant_member (natural id) (some user) ≡ next
    → (role_is_system_admin user.role ≡ true) ⊎ (user.restaurant_id ≡ some id)
unfolding require_restaurant_member
require_restaurant_member_sound id user h =
    elim (member_let_through (id == 0) (role_is_system_admin user.role)
      (is_number user.restaurant_id id) h) [
        | inl admin ↦ inl admin
        | inr member ↦ inr (number_is user.restaurant_id id member)
      ]

checked_branch :
    (id : ℕ) (query : NumberParam) (user : JwtPayload)
    → id ≢ 0
    → check_branch (or_param (natural id) query) (some user)
      ≡ (if not (user_has_branch (some user) id) then answered 403 else next)
unfolding check_branch
checked_branch id query user positive =
    let e : (id == 0) ≡ false = ground arith in rw (e, check_branch, e) refl

require_branch_access_sound :
    (id : ℕ) (query : NumberParam) (user : JwtPayload)
    → id ≢ 0
    → require_branch_access (natural id) query (some user) ≡ next
    → (role_is_system_admin user.role ≡ true)
      ⊎ ((user_is_owner (some user) ≡ true) ⊎ (user_has_branch (some user) id ≡ true))
unfolding require_branch_access check_branch
require_branch_access_sound id query user positive h =
    branch_let_through (role_is_system_admin user.role) (user_is_owner (some user))
      (user_has_branch (some user) id) (rw (← checked_branch id query user positive) h)

may_see :
    (user : JwtPayload) (restaurant_id branch_id : ℕ)
    → (role_is_system_admin user.role ≡ true) ⊎ (user.restaurant_id ≡ some restaurant_id)
    → (role_is_system_admin user.role ≡ true)
      ⊎ ((user_is_owner (some user) ≡ true) ⊎ (user_has_branch (some user) branch_id ≡ true))
    → MaySee user restaurant_id branch_id
may_see user restaurant_id branch_id (inl admin) branch = inl admin
may_see user restaurant_id branch_id (inr member) (inl admin) = inl admin
may_see user restaurant_id branch_id (inr member) (inr branch) = inr (member, branch)

-- A user whom the guards of a restaurant's branch hand on, for a branch with an id that is not zero, is
-- answered only orders that the user may see: an admin any, others those of their own restaurant,
-- and of these an owner all, the staff those of a branch that is theirs.
pub list_restaurant_orders-MaySee :
    (env : ListEnv) (filter : ListRestaurantOrdersFilter) (filters : List FilterParams)
    (pagination : PaginationParams) (w : World) (l : OrderList) (user : JwtPayload)
    (query : NumberParam)
    → require_restaurant_member (natural filter.restaurant_id) (some user) ≡ next
    → require_branch_access (natural filter.branch_id) query (some user) ≡ next
    → filter.branch_id ≢ 0
    → (list_restaurant_orders env filter filters pagination w).0 ≡ ok l
    → All (λ s. MaySee user s.restaurant_id s.branch_id) l.data_rows
list_restaurant_orders-MaySee env filter filters pagination w l user query member branch positive
      listed =
    let allowed =
      may_see user filter.restaurant_id filter.branch_id
        (require_restaurant_member_sound filter.restaurant_id user member)
        (require_branch_access_sound filter.branch_id query user positive branch) in
    All-weaken (IsBranchSummary filter) (λ s. MaySee user s.restaurant_id s.branch_id)
      (λ s k.
        subst (λ r. MaySee user r s.branch_id) (sym k.0)
          (subst (λ b. MaySee user filter.restaurant_id b) (sym k.1) allowed))
      l.data_rows (list_restaurant_orders-Scoped env filter filters pagination w l listed)
