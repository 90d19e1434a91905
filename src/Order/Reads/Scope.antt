-- ===== src/Order/Reads/Scope.antt =====
-- A list shows no row of another tenant.
use mathlib.Core.Path.{subst}
use quickbite_order_service.Prelude.{◌≡◌, sym, ◌&&◌, Bool, true, List, [], ◌∷◌, map, All, arith}
use quickbite_order_service.Prelude.Rows.{select_where}
use quickbite_order_service.Prelude.Sort.{All-weaken, All-select_where}
use quickbite_order_service.Http.Pagination.{PaginationParams}
use quickbite_order_service.Http.Pagination.Within.{build_pagination_result-Within}
use quickbite_order_service.Http.Filters.{FilterParams, apply_filters}
use quickbite_order_service.Order.Entity.{OrderEntity}
use quickbite_order_service.Order.Response.{OrderSummaryResponse, summary_response}
use quickbite_order_service.Order.Reads.{
  ListEnv, ListRestaurantOrdersFilter, OrderList, order_property, order_sort_columns,
  page_of_orders, find_orders_by_restaurant_branch, list_restaurant_orders, is_of_branch, meets_all,
  count_items_by_order_ids, count_or_zero,
}
use quickbite_order_service.Order.Reads.Pages.{page_of_orders-built, listed_page}
use quickbite_order_service.Store.{World, ok}

All-true : {A : Type 0} (xs : List A) → All (λ x. Unit {0}) xs
All-true [] = tt
All-true (x ∷ xs) = (tt, All-true xs)

All-map :
    {A B : Type 0} (f : A → B) (P : B → Type 0) (xs : List A)
    → All (λ x. P (f x)) xs
    → All P (map f xs)
All-map f P [] h = tt
All-map f P (x ∷ xs) (h, t) = (h, All-map f P xs t)

abbrev IsOfBranch : ListRestaurantOrdersFilter → OrderEntity → Type 0
IsOfBranch filter o = (o.restaurant_id ≡ filter.restaurant_id) × (o.branch_id ≡ filter.branch_id)

abbrev pub IsBranchSummary : ListRestaurantOrdersFilter → OrderSummaryResponse → Type 0
IsBranchSummary filter s =
    (s.restaurant_id ≡ filter.restaurant_id) × (s.branch_id ≡ filter.branch_id)

branch_of_test :
    (filter : ListRestaurantOrdersFilter) (o : OrderEntity) (b : Bool)
    → (is_of_branch filter o && b) ≡ true
    → IsOfBranch filter o
branch_of_test filter o b h = (ground arith, ground arith)

-- Whatever the filters, the cursor and the order that a request asks for, every order that the list of
-- a restaurant's branch answers is one of that restaurant and that branch.
pub list_restaurant_orders-Scoped :
    (env : ListEnv) (filter : ListRestaurantOrdersFilter) (filters : List FilterParams)
    (pagination : PaginationParams) (w : World) (l : OrderList)
    → (list_restaurant_orders env filter filters pagination w).0 ≡ ok l
    → All
        (λ s. (s.restaurant_id ≡ filter.restaurant_id) × (s.branch_id ≡ filter.branch_id))
        l.data_rows
unfolding list_restaurant_orders find_orders_by_restaurant_branch
list_restaurant_orders-Scoped env filter filters pagination w l listed =
    let test : OrderEntity → Bool =
      λ o. is_of_branch filter o && meets_all env (apply_filters filters) o in
    let rows = select_where test w.db.orders in
    let (page, is_page, is_list) = listed_page w.db (page_of_orders env pagination rows) l listed in
    let (found, applied, built) = page_of_orders-built env pagination rows page is_page in
    let scoped : All (IsOfBranch filter) rows =
      All-weaken (λ o. Unit {0} × (test o ≡ true)) (IsOfBranch filter)
        (λ o k. branch_of_test filter o (meets_all env (apply_filters filters) o) k.1) rows
        (All-select_where (λ o. Unit {0}) test w.db.orders (All-true w.db.orders)) in
    let on_page : All (IsOfBranch filter) page.data_rows =
      subst (λ p. All (IsOfBranch filter) p.data_rows) (sym built)
        (build_pagination_result-Within (IsOfBranch filter) (order_property env)
          (order_sort_columns env) pagination rows found scoped applied) in
    let counts = count_items_by_order_ids (map (λ o. o.id) page.data_rows) w.db in
    subst (λ q. All (IsBranchSummary filter) q.data_rows) (sym is_list)
      (All-map (λ o. summary_response o (count_or_zero (counts o.id))) (IsBranchSummary filter)
        page.data_rows on_page)
