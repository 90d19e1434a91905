-- ===== src/Order/Reads/Pages.antt =====
-- What the lists of orders hold, and where their cursor leads.
use mathlib.Core.Path.{subst}
use mathlib.Core.List.{append-nil, append_assoc}
use quickbite_order_service.Prelude.{
  ℕ, ◌+◌, ◌≡◌, refl, sym, ◌∙◌, ap, true, ◌&&◌, ◌++◌, ◌==◌, Option, none, some, List, [], ◌∷◌, take,
  length, map, All, ltb, leb, if◌then◌else◌, arith, Bool-cases, inl, inr,
}
use quickbite_order_service.Prelude.Text.{Text, codes, text_eq}
use quickbite_order_service.Prelude.Rows.{select_where}
use quickbite_order_service.Prelude.Sort.{order_by, All-weaken}
use quickbite_order_service.Order.Repo.{contains_id}
use quickbite_order_service.Order.Response.{OrderSummaryResponse, summary_response}
use quickbite_order_service.Http.Pagination.{
  SortOrder, asc, desc, reversed_onto, PaginationParams, PaginationMeta, Page, sorted, past_cursor,
  apply_cursor_pagination, build_pagination_result, camel_to_snake, includes, default_sort_by,
}
use quickbite_order_service.Http.Pagination.Cut.{
  IsPageOf, build_pagination_result-IsPageOf, build_pagination_result-cursor,
}
use quickbite_order_service.Order.Entity.{OrderEntity}
use quickbite_order_service.Order.Access.{ActorContext}
use quickbite_order_service.Order.Reads.{
  ListEnv, ListCustomerOrdersFilter, OrderList, order_property, order_sort_columns, page_of_orders,
  is_of_customer, find_orders_by_customer, list_customer_orders, list_of, db_for_year, map_ok,
  count_items_by_order_ids, count_or_zero,
}
use quickbite_order_service.Store.{World, Db, Result, ok, err, infrastructure}

abbrev pub of_customer : ListEnv → ActorContext → ℕ → ListCustomerOrdersFilter
of_customer env actor year = record {
  customer_id = actor.user_id;
  year_start = env.year_begin year;
  year_end = env.year_begin (year + 1);
}

abbrev pub by_creation : OrderEntity → ℕ
by_creation o = o.created_at

-- The first page, as it is cut from the sorted rows.
page_of_orders-first :
    (env : ListEnv) (pagination : PaginationParams) (rows : List OrderEntity)
    → pagination.cursor ≡ none
    → pagination.sort_by ≡ default_sort_by
    → page_of_orders env pagination rows
      ≡ ok (
          build_pagination_result
            (order_property env)
            (take (pagination.limit + 1) (sorted pagination.sort_order by_creation rows))
            pagination.limit
            pagination.sort_by)
unfolding page_of_orders apply_cursor_pagination past_cursor camel_to_snake text_eq
    build_pagination_result
page_of_orders-first env pagination rows no_cursor by_default =
    rw (page_of_orders, apply_cursor_pagination, past_cursor, by_default, no_cursor) refl

-- A cursor that the database does not read as a time is an error.
page_of_orders-refused :
    (env : ListEnv) (pagination : PaginationParams) (rows : List OrderEntity) (c : ℕ) (cs : Text)
    → pagination.cursor ≡ some (c ∷ cs)
    → pagination.sort_by ≡ default_sort_by
    → env.read_timestamp (c ∷ cs) ≡ none
    → page_of_orders env pagination rows ≡ err infrastructure
unfolding page_of_orders apply_cursor_pagination past_cursor camel_to_snake text_eq
page_of_orders-refused env pagination rows c cs at_cursor by_default refused =
    rw (page_of_orders, apply_cursor_pagination, past_cursor, by_default, at_cursor, refused) refl

-- The rows the other way round.
abbrev pub backwards : List OrderEntity → List OrderEntity
backwards [] = []
backwards (x ∷ xs) = backwards xs ++ x ∷ []

reversed_onto-backwards : (xs ys : List OrderEntity) → reversed_onto xs ys ≡ backwards xs ++ ys
reversed_onto-backwards [] ys = refl
reversed_onto-backwards (x ∷ xs) ys =
    reversed_onto-backwards xs (x ∷ ys) ∙ sym (append_assoc (backwards xs) (x ∷ []) ys)

-- The oldest or the newest rows first.
abbrev pub arranged : SortOrder → List OrderEntity → List OrderEntity
arranged asc rows = order_by by_creation rows
arranged desc rows = backwards (order_by by_creation rows)

sorted-arranged :
    (s : SortOrder) (rows : List OrderEntity) → sorted s by_creation rows ≡ arranged s rows
unfolding sorted
sorted-arranged asc rows = refl
sorted-arranged desc rows = reversed_onto-backwards (order_by by_creation rows) [] ∙ append-nil _

-- A page with its responses, each with the number of the order's items.
abbrev pub answer_of : Db → Page OrderEntity → OrderList
answer_of db page = record {
  data_rows =
      map (λ o. summary_response o (length (select_where (λ i. i.order_id == o.id) db.order_items)))
        page.data_rows;
  meta = page.meta;
}

counted_at :
    (db : Db) (ids : List ℕ) (o : OrderEntity)
    → contains_id ids o.id ≡ true
    → count_or_zero (count_items_by_order_ids ids db o.id)
      ≡ length (select_where (λ i. i.order_id == o.id) db.order_items)
unfolding count_items_by_order_ids
counted_at db ids o h =
    let n = length (select_where (λ i. i.order_id == o.id) db.order_items) in
    elim (Bool-cases (n == 0)) [
      | inl e ↦ let z : n ≡ 0 = ground arith in rw (h, e) (sym z)
      | inr e ↦ rw (h, e)
    ]

counted_rows :
    (db : Db) (ids : List ℕ) (rows : List OrderEntity)
    → All (λ o. contains_id ids o.id ≡ true) rows
    → map (λ o. summary_response o (count_or_zero (count_items_by_order_ids ids db o.id))) rows
      ≡ map
          (λ o. summary_response o (length (select_where (λ i. i.order_id == o.id) db.order_items)))
          rows
counted_rows db ids [] h = refl
counted_rows db ids (o ∷ rows) (h, hs) = rw (counted_at db ids o h, counted_rows db ids rows hs)

own_ids : (rows : List OrderEntity) → All (λ o. contains_id (map (λ r. r.id) rows) o.id ≡ true) rows
own_ids [] = tt
own_ids (o ∷ rows) = (
  ground arith,
  All-weaken (λ x. contains_id (map (λ r. r.id) rows) x.id ≡ true)
      (λ x. contains_id (o.id ∷ map (λ r. r.id) rows) x.id ≡ true) (λ x h. ground arith) rows
      (own_ids rows),
)

abbrev with_rows : PaginationMeta → List OrderSummaryResponse → OrderList
with_rows meta rows = record { data_rows = rows; meta = meta }

list_of-answer : (db : Db) (page : Page OrderEntity) → list_of db page ≡ answer_of db page
list_of-answer db page =
    ap (with_rows page.meta)
      (counted_rows db (map (λ r. r.id) page.data_rows) page.data_rows (own_ids page.data_rows))

-- A customer's first page of a year, sorted by the time of creation, is answered from the archive for
-- a year before this one and from the hot cluster otherwise: it holds, with the numbers of their
-- items, the orders there of this customer that were created in that year, the newest or the oldest
-- first as asked for, up to the limit, says whether there are more, and counts them.
pub list_customer_orders-IsPageOf :
    (env : ListEnv) (actor : ActorContext) (year : ℕ) (pagination : PaginationParams) (w : World)
    → pagination.cursor ≡ none
    → pagination.sort_by ≡ default_sort_by
    → let db = if ltb year env.current_year then env.archive else w.db in
      (page : Page OrderEntity) × ((list_customer_orders env actor year pagination w).0
        ≡ ok (answer_of db page))
      × IsPageOf
          (order_property env)
          (arranged pagination.sort_order (
            select_where
              (λ o.
                o.customer_id == actor.user_id
                && leb (env.year_begin year) o.created_at
                && ltb o.created_at (env.year_begin (year + 1)))
              db.orders))
          pagination.limit
          pagination.sort_by
          page
unfolding list_customer_orders find_orders_by_customer
list_customer_orders-IsPageOf env actor year pagination w no_cursor by_default =
    let db = db_for_year env year w.db in
    let rows = select_where (is_of_customer (of_customer env actor year)) db.orders in
    let xs = sorted pagination.sort_order by_creation rows in
    let page =
      build_pagination_result (order_property env) (take (pagination.limit + 1) xs) pagination.limit
        pagination.sort_by in
    (
      page,
      ap (map_ok (list_of db)) (page_of_orders-first env pagination rows no_cursor by_default)
          ∙ ap ok (list_of-answer db page),
      subst (λ q. IsPageOf (order_property env) q pagination.limit pagination.sort_by page)
          (sorted-arranged pagination.sort_order rows)
          (build_pagination_result-IsPageOf (order_property env) xs pagination.limit
            pagination.sort_by),
    )

-- The rows have no property `createdAt`.
order_property-created_at :
    (env : ListEnv) (order : OrderEntity)
    → order_property env order default_sort_by ≡ codes "undefined"
unfolding order_property includes text_eq
order_property-created_at env order = refl

-- A page that is answered is one that was built, of rows that the database found.
built_page :
    (env : ListEnv) (pagination : PaginationParams) (o : Option (List OrderEntity))
    (page : Page OrderEntity)
    → elim o as (λ x. Result (Page OrderEntity)) [
      | none ↦ err infrastructure
      | some found ↦
          ok
            (build_pagination_result (order_property env) found pagination.limit pagination.sort_by)
    ]
      ≡ ok page
    → (found : List OrderEntity) × (o ≡ some found)
      × (page
          ≡ build_pagination_result (order_property env) found pagination.limit pagination.sort_by)
built_page env pagination none page h = cc
built_page env pagination (some found) page h = (found, refl, cc)

pub page_of_orders-built :
    (env : ListEnv) (pagination : PaginationParams) (rows : List OrderEntity)
    (page : Page OrderEntity)
    → page_of_orders env pagination rows ≡ ok page
    → (found : List OrderEntity) × (apply_cursor_pagination (order_sort_columns env) pagination rows
        ≡ some found)
      × (page
          ≡ build_pagination_result (order_property env) found pagination.limit pagination.sort_by)
unfolding page_of_orders
page_of_orders-built env pagination rows page h =
    built_page env pagination (apply_cursor_pagination (order_sort_columns env) pagination rows)
      page h

page_of_orders-next_cursor :
    (env : ListEnv) (pagination : PaginationParams) (rows : List OrderEntity)
    (page : Page OrderEntity) (c : Text)
    → pagination.sort_by ≡ default_sort_by
    → page_of_orders env pagination rows ≡ ok page
    → page.meta.next_cursor ≡ some c
    → c ≡ codes "undefined"
page_of_orders-next_cursor env pagination rows page c by_default is_page is_cursor =
    let (found, _, built) = page_of_orders-built env pagination rows page is_page in
    let (last, same) =
      build_pagination_result-cursor (order_property env) found pagination.limit pagination.sort_by
        c (sym (ap (λ p. p.meta.next_cursor) built) ∙ is_cursor) in
    same ∙ ap (λ k. order_property env last k) by_default ∙ order_property-created_at env last

-- A list that is answered lists a page.
pub listed_page :
    (db : Db) (r : Result (Page OrderEntity)) (l : OrderList)
    → map_ok (list_of db) r ≡ ok l
    → (page : Page OrderEntity) × (r ≡ ok page) × (l ≡ list_of db page)
listed_page db (ok page) l h = (page, refl, cc)
listed_page db (err e) l h = cc

-- Where the database does not read `undefined` as a time, a customer's list that is sorted by the
-- time of creation has no cursor but `undefined`, and the request for the next page is an error.
pub list_customer_orders-next_cursor :
    (env : ListEnv) (actor : ActorContext) (year : ℕ) (pagination : PaginationParams) (w : World)
    (l : OrderList) (c : Text)
    → env.read_timestamp (codes "undefined") ≡ none
    → pagination.sort_by ≡ default_sort_by
    → (list_customer_orders env actor year pagination w).0 ≡ ok l
    → l.meta.next_cursor ≡ some c
    → (c ≡ codes "undefined")
      × ((list_customer_orders env actor year (record pagination { cursor = some c }) w).0
          ≡ err infrastructure)
unfolding list_customer_orders find_orders_by_customer
list_customer_orders-next_cursor env actor year pagination w l c unread by_default listed
      is_cursor =
    let db = db_for_year env year w.db in
    let rows = select_where (is_of_customer (of_customer env actor year)) db.orders in
    let (page, is_page, is_list) = listed_page db (page_of_orders env pagination rows) l listed in
    let same =
      page_of_orders-next_cursor env pagination rows page c by_default is_page
        (sym (ap (λ q. q.meta.next_cursor) is_list) ∙ is_cursor) in
    (
      same,
      ap
            (λ t.
              map_ok (list_of db) (page_of_orders env (record pagination { cursor = some t }) rows))
            same
          ∙ ap (map_ok (list_of db)) (
              page_of_orders-refused env (record pagination { cursor = some (codes "undefined") })
                rows 117 _ refl by_default unread),
    )
