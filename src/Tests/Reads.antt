-- ===== src/Tests/Reads.antt =====
-- Lists over three orders, two of them the customer's, with one order to a page.
use quickbite_order_service.Prelude.{
  arith, ◌&&◌, ◌==◌, ltb, leb, ℕ, ◌*◌, ◌≡◌, refl, All, true, none, some, [], ◌∷◌,
}
use quickbite_order_service.Prelude.Text.{codes, text_eq}
use quickbite_order_service.Prelude.Rows.{select_where}
use quickbite_order_service.Prelude.Sort.{order_by, insert_by}
use quickbite_order_service.Http.Pagination.{
  PaginationParams, desc, Page, default_sort_by, includes, camel_to_snake, sorted, past_cursor,
  apply_cursor_pagination, build_pagination_result,
}
use quickbite_order_service.Http.Filters.{apply_filters}
use quickbite_order_service.Http.Pagination.Cut.{IsPageOf}
use quickbite_order_service.Order.Enums.{placed, cod}
use quickbite_order_service.Order.Entity.{OrderEntity}
use quickbite_order_service.Order.Reads.{
  ListEnv, ListRestaurantOrdersFilter, OrderList, order_property, page_of_orders,
  find_orders_by_customer, find_orders_by_restaurant_branch, count_items_by_order_ids,
  list_customer_orders, list_restaurant_orders, list_of,
}
use quickbite_order_service.Order.Reads.Pages.{
  answer_of, arranged, list_customer_orders-IsPageOf, list_customer_orders-next_cursor,
}
use quickbite_order_service.Order.Access.{restaurant_user}
use quickbite_order_service.Auth.Guards.{
  JwtPayload, natural, not_a_number, next, require_restaurant_member, require_branch_access,
  check_branch,
}
use quickbite_order_service.Auth.Guards.Tenants.{MaySee, list_restaurant_orders-MaySee}
use quickbite_order_service.Store.{World, Db, ok, err, infrastructure}
use quickbite_order_service.Tests.Data.{order_in, db_with, world_of, customer_actor}

abbrev order_at : ℕ → ℕ → OrderEntity
order_at id created_at = record (order_in placed cod none) {
  id = id;
  public_id = id ∷ [];
  created_at = created_at;
}

abbrev order_of_other : OrderEntity
order_of_other = record (order_in placed cod none) { id = 3; customer_id = 60; branch_id = 50 }

abbrev list_db : Db
list_db = record (db_with (order_at 1 1000)) {
  orders = order_at 1 1000 ∷ order_of_other ∷ order_at 2 2000 ∷ [];
}

abbrev list_world : World
list_world = record (world_of (order_at 1 1000) none none) { db = list_db }

-- The database reads no text as a time; a year has 10000 milliseconds.
abbrev list_env : ListEnv
list_env = record {
  current_year = 0;
  year_begin = λ y. y * 10000;
  archive = db_with (order_at 9 1);
  read_timestamp = λ t. none;
  holds = λ c o. true;
  string_of = λ o key. [];
}

abbrev page_params : PaginationParams
page_params = record { cursor = none; limit = 1; sort_by = default_sort_by; sort_order = desc }

list_customer_orders-IsPageOf_example :
    (page : Page OrderEntity) × ((list_customer_orders list_env customer_actor 0 page_params
        list_world).0
      ≡ ok (answer_of list_db page))
    × IsPageOf
        (order_property list_env)
        (arranged desc (
          select_where
            (λ o.
              o.customer_id == customer_actor.user_id
              && leb (list_env.year_begin 0) o.created_at
              && ltb o.created_at (list_env.year_begin 1))
            list_db.orders))
        1
        default_sort_by
        page
list_customer_orders-IsPageOf_example =
    list_customer_orders-IsPageOf list_env customer_actor 0 page_params list_world refl refl

abbrev newest_page : OrderList
newest_page = list_of list_db record {
  data_rows = order_at 2 2000 ∷ [];
  meta = record { next_cursor = some (codes "undefined"); has_more = true; count = 1 };
}

newest_listed :
    (list_customer_orders list_env customer_actor 0 page_params list_world).0 ≡ ok newest_page
unfolding list_customer_orders find_orders_by_customer page_of_orders apply_cursor_pagination
    past_cursor sorted order_by insert_by camel_to_snake text_eq build_pagination_result
    order_property includes count_items_by_order_ids
newest_listed = refl

list_customer_orders-next_cursor_example :
    (codes "undefined" ≡ codes "undefined")
    × ((list_customer_orders list_env customer_actor 0
          (record page_params { cursor = some (codes "undefined") })
          list_world).0
        ≡ err infrastructure)
list_customer_orders-next_cursor_example =
    list_customer_orders-next_cursor list_env customer_actor 0 page_params list_world newest_page
      (codes "undefined") refl refl newest_listed refl

abbrev branch_filter : ListRestaurantOrdersFilter
branch_filter = record {
  restaurant_id = 4;
  branch_id = 5;
  status = some placed;
  from_time = none;
  to_time = some 5000;
}

branch_listed :
    (list_restaurant_orders list_env branch_filter [] page_params list_world).0 ≡ ok newest_page
unfolding list_restaurant_orders find_orders_by_restaurant_branch page_of_orders
    apply_cursor_pagination past_cursor sorted order_by insert_by camel_to_snake text_eq
    build_pagination_result order_property includes count_items_by_order_ids apply_filters
branch_listed = refl

-- A member of the staff of branch 5 of restaurant 4.
abbrev staff_user : JwtPayload
staff_user = record {
  user_id = 41;
  role = restaurant_user;
  restaurant_id = some 4;
  restaurant_role = some (codes "branch_staff");
  branch_ids = some (3 ∷ 5 ∷ []);
}

staff_member : require_restaurant_member (natural 4) (some staff_user) ≡ next
unfolding require_restaurant_member
staff_member = refl

staff_branch : require_branch_access (natural 5) not_a_number (some staff_user) ≡ next
unfolding require_branch_access check_branch text_eq
staff_branch = refl

list_restaurant_orders-MaySee_example :
    All (λ s. MaySee staff_user s.restaurant_id s.branch_id) newest_page.data_rows
list_restaurant_orders-MaySee_example =
    list_restaurant_orders-MaySee list_env branch_filter [] page_params list_world newest_page
      staff_user not_a_number staff_member staff_branch (λ e. absurd (omega arith)) branch_listed
