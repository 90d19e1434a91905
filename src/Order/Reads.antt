-- ===== src/Order/Reads.antt =====
-- The reads of the order service: getOrder, listCustomerOrders and listRestaurantOrders of
-- app/order/service/order.service.ts, with the queries of app/order/repository that they make.
pub mod Pages
pub mod Scope
use quickbite_order_service.Prelude.{
  ℕ, ◌+◌, ◌&&◌, Bool, true, false, Option, none, some, List, [], ◌∷◌, ◌==◌, map, ltb, leb,
  if◌then◌else◌, length,
}
use quickbite_order_service.Prelude.Text.{Text, codes, text_eq}
use quickbite_order_service.Prelude.Rows.{select_where}
use quickbite_order_service.Http.Pagination.{
  PaginationParams, PaginationMeta, Page, SortColumns, includes, apply_cursor_pagination,
  build_pagination_result,
}
use quickbite_order_service.Http.Filters.{FilterParams, Condition, apply_filters}
use quickbite_order_service.Order.Enums.{OrderStatus, status_eq}
use quickbite_order_service.Order.Entity.{OrderEntity, OrderItemEntity}
use quickbite_order_service.Order.Access.{ActorContext, assert_read_access}
use quickbite_order_service.Order.Repo.{
  contains_id, find_items_by_order_ids, find_order_by_public_id,
}
use quickbite_order_service.Order.Response.{
  OrderDetailResponse, detail_response, OrderSummaryResponse, summary_response,
}
use quickbite_order_service.Store.{
  World, Db, Action, Result, ok, err, order_not_found, infrastructure, or_throw, lift, pure, ◌>>=◌,
  ◌>>◌,
}

-- What a list finds around it: the year of today and when a year begins, the archive cluster, how the
-- database reads a text as a time and whether a row meets a condition, and `String` of a row's column.
pub record ListEnv : Type 0 where
  pub current_year : ℕ
  pub year_begin : ℕ → ℕ
  pub archive : Db
  pub read_timestamp : Text → Option ℕ
  pub holds : Condition → OrderEntity → Bool
  pub string_of : OrderEntity → Text → Text

-- The columns of a row; a row has no other properties.
abbrev order_columns : List Text
order_columns =
    codes "id"
    ∷ codes "region"
    ∷ codes "public_id"
    ∷ codes "country_code"
    ∷ codes "restaurant_id"
    ∷ codes "restaurant_owner_id"
    ∷ codes "branch_id"
    ∷ codes "customer_id"
    ∷ codes "customer_address_id"
    ∷ codes "delivery_lat"
    ∷ codes "delivery_lng"
    ∷ codes "delivery_address_text_snapshot"
    ∷ codes "branch_lat"
    ∷ codes "branch_lng"
    ∷ codes "status"
    ∷ codes "subtotal"
    ∷ codes "delivery_fee"
    ∷ codes "service_fee"
    ∷ codes "total"
    ∷ codes "commission"
    ∷ codes "currency"
    ∷ codes "payment_method"
    ∷ codes "delivery_agent_id"
    ∷ codes "created_at"
    ∷ codes "updated_at"
    ∷ codes "accepted_at"
    ∷ codes "rejected_at"
    ∷ codes "ready_at"
    ∷ codes "assigned_at"
    ∷ codes "picked_at"
    ∷ codes "delivered_at"
    ∷ codes "cancelled_at"
    ∷ []

-- `String(row[key])`.
unfoldable pub order_property : ListEnv → OrderEntity → Text → Text
order_property env order key =
    if includes order_columns key then env.string_of order key else codes "undefined"

-- The controllers sort by the time of creation, and by nothing else.
abbrev order_sort_columns : ListEnv → SortColumns OrderEntity
order_sort_columns env = record {
  key_of = λ c. if text_eq c (codes "created_at") then some (λ o. o.created_at) else none;
  read_key = env.read_timestamp;
}

unfoldable pub page_of_orders :
    ListEnv → PaginationParams → List OrderEntity → Result (Page OrderEntity)
page_of_orders env pagination rows =
    elim (apply_cursor_pagination (order_sort_columns env) pagination rows) [
      | none ↦ err infrastructure
      | some found ↦
          ok
            (build_pagination_result (order_property env) found pagination.limit pagination.sort_by)
    ]

pub record ListCustomerOrdersFilter : Type 0 where
  pub customer_id : ℕ
  pub year_start : ℕ
  pub year_end : ℕ

pub record ListRestaurantOrdersFilter : Type 0 where
  pub restaurant_id : ℕ
  pub branch_id : ℕ
  pub status : Option OrderStatus
  pub from_time : Option ℕ
  pub to_time : Option ℕ

abbrev pub is_of_customer : ListCustomerOrdersFilter → OrderEntity → Bool
is_of_customer filter o =
    o.customer_id == filter.customer_id
    && leb filter.year_start o.created_at
    && ltb o.created_at filter.year_end

unfoldable pub find_orders_by_customer :
    ListEnv → ListCustomerOrdersFilter → PaginationParams → Db → Result (Page OrderEntity)
find_orders_by_customer env filter pagination db =
    page_of_orders env pagination (select_where (is_of_customer filter) db.orders)

-- A test that is left out when its value is not given.
abbrev pub given : {A : Type 0} → Option A → (A → Bool) → Bool
given none test = true
given (some a) test = test a

abbrev is_of_branch : ListRestaurantOrdersFilter → OrderEntity → Bool
is_of_branch filter o =
    o.restaurant_id == filter.restaurant_id
    && o.branch_id == filter.branch_id
    && given filter.status (λ s. status_eq o.status s)
    && given filter.from_time (λ t. leb t o.created_at)
    && given filter.to_time (λ t. ltb o.created_at t)

abbrev meets_all : ListEnv → List Condition → OrderEntity → Bool
meets_all env [] o = true
meets_all env (c ∷ cs) o = env.holds c o && meets_all env cs o

unfoldable pub find_orders_by_restaurant_branch :
    ListEnv
    → ListRestaurantOrdersFilter
    → PaginationParams
    → List FilterParams
    → Db
    → Result (Page OrderEntity)
find_orders_by_restaurant_branch env filter pagination extra_filters db =
    page_of_orders env pagination (
      select_where (λ o. is_of_branch filter o && meets_all env (apply_filters extra_filters) o)
        db.orders)

-- The map from orders to the numbers of their items; an order without items has no entry.
unfoldable pub count_items_by_order_ids : List ℕ → Db → ℕ → Option ℕ
count_items_by_order_ids ids db id =
    let n = length (select_where (λ i. i.order_id == id) db.order_items) in
    if contains_id ids id then if n == 0 then none else some n else none

pub record OrderList : Type 0 where
  pub data_rows : List OrderSummaryResponse
  pub meta : PaginationMeta

-- `counts.get(o.id) ?? 0`.
abbrev count_or_zero : Option ℕ → ℕ
count_or_zero none = 0
count_or_zero (some n) = n

abbrev pub list_of : Db → Page OrderEntity → OrderList
list_of db page =
    let counts = count_items_by_order_ids (map (λ o. o.id) page.data_rows) db in
    record {
      data_rows = map (λ o. summary_response o (count_or_zero (counts o.id))) page.data_rows;
      meta = page.meta;
    }

abbrev map_ok : {A B : Type 0} → (A → B) → Result A → Result B
map_ok f (ok a) = ok (f a)
map_ok f (err e) = err e

unfoldable get_order : ActorContext → Text → Action OrderDetailResponse
get_order actor public_id = do
  found ← find_order_by_public_id public_id
  order ← or_throw found order_not_found
  lift (assert_read_access actor order)
  items ← find_items_by_order_ids (order.id ∷ [])
  pure (detail_response order items)

-- A year before this one is read from the archive.
abbrev db_for_year : ListEnv → ℕ → Db → Db
db_for_year env year hot = if ltb year env.current_year then env.archive else hot

unfoldable pub list_customer_orders :
    ListEnv → ActorContext → ℕ → PaginationParams → Action OrderList
list_customer_orders env actor year pagination w =
    let db = db_for_year env year w.db in
    let filter : ListCustomerOrdersFilter = record {
      customer_id = actor.user_id;
      year_start = env.year_begin year;
      year_end = env.year_begin (year + 1);
    } in
    (map_ok (list_of db) (find_orders_by_customer env filter pagination db), w)

unfoldable pub list_restaurant_orders :
    ListEnv → ListRestaurantOrdersFilter → List FilterParams → PaginationParams → Action OrderList
list_restaurant_orders env filter filters pagination w =
    (map_ok (list_of w.db) (find_orders_by_restaurant_branch env filter pagination filters w.db), w)
