-- ===== src/Order/CoreCache/Priced.antt =====
-- What the reads through the cache answer after core's events.
use quickbite_order_service.Prelude.{
  ℕ, ◌≡◌, ◌≢◌, refl, true, false, ◌&&◌, ◌||◌, some, List, [], ◌∷◌, ◌==◌, All, arith,
}
use quickbite_order_service.Order.Core.{CoreBranchProduct}
use quickbite_order_service.Order.CoreCache.{
  full_product, CoreCache, CoreAnswers, ProductPriceChanged, get_branch_products, cached_products,
  missed_products, fetch_products, merge_price, handle_product_stock_changed,
  handle_product_price_changed, handle_branch_updated, handle_branch_deactivated,
  handle_restaurant_suspended, is_branch_rejecting_orders, CoreEvent, product_stock_changed,
  product_price_changed, branch_updated, branch_deactivated, restaurant_suspended, handle_event,
  handle_events,
}

-- The event is no update of the branch.
abbrev pub NotUpdateOf : ℕ → CoreEvent → Type 0
NotUpdateOf id (branch_updated i) = i ≢ id
NotUpdateOf id (product_stock_changed p) = Unit
NotUpdateOf id (product_price_changed p) = Unit
NotUpdateOf id (branch_deactivated i) = Unit
NotUpdateOf id (restaurant_suspended i) = Unit

handle_event-rejecting :
    (id : ℕ) (e : CoreEvent) (c : CoreCache)
    → NotUpdateOf id e
    → c.rejecting id ≡ true
    → (handle_event e c).rejecting id ≡ true
unfolding handle_event handle_product_stock_changed handle_product_price_changed
    handle_branch_updated handle_branch_deactivated handle_restaurant_suspended
handle_event-rejecting id (branch_updated i) c others h = ground arith
handle_event-rejecting id (product_stock_changed p) c others h = ground arith
handle_event-rejecting id (product_price_changed p) c others h = ground arith
handle_event-rejecting id (branch_deactivated i) c others h = ground arith
handle_event-rejecting id (restaurant_suspended i) c others h = ground arith

handle_events-rejecting :
    (id : ℕ) (es : List CoreEvent) (c : CoreCache)
    → All (NotUpdateOf id) es
    → c.rejecting id ≡ true
    → (handle_events es c).rejecting id ≡ true
handle_events-rejecting id [] c others h = h
handle_events-rejecting id (e ∷ es) c (n, others) h =
    handle_events-rejecting id es (handle_event e c) others (handle_event-rejecting id e c n h)

-- From the deactivation of a branch with an id on, whatever events come after it but an update of that
-- branch, the branch rejects orders for as long as the flag stays.
pub handle_branch_deactivated-rejecting :
    (id : ℕ) (es : List CoreEvent) (c : CoreCache)
    → id ≢ 0
    → All (NotUpdateOf id) es
    → is_branch_rejecting_orders id (handle_events es (handle_event (branch_deactivated id) c))
      ≡ true
unfolding is_branch_rejecting_orders handle_event handle_branch_deactivated
handle_branch_deactivated-rejecting id es c real others =
    handle_events-rejecting id es (handle_event (branch_deactivated id) c) others (ground arith)

-- The answer of the cache to a request for one product of a branch.
one_product-full :
    (core : CoreAnswers) (branch_id id : ℕ) (p : CoreBranchProduct) (c : CoreCache)
    → c.products branch_id id ≡ some (full_product p)
    → (get_branch_products core branch_id (id ∷ []) c).0 ≡ some (p ∷ [])
unfolding get_branch_products cached_products missed_products fetch_products
one_product-full core branch_id id p c e =
    rw (get_branch_products, cached_products, missed_products, e) refl

-- After a change of the price of a product is handled, where the cache has all of that product, a read
-- of it answers the cached product at the new price, and does not ask core.
handle_product_price_changed-read :
    (core : CoreAnswers) (p : ProductPriceChanged) (old : CoreBranchProduct) (c : CoreCache)
    → p.branch_id ≢ 0
    → p.product_id ≢ 0
    → c.products p.branch_id p.product_id ≡ some (full_product old)
    → (get_branch_products core p.branch_id
        (p.product_id ∷ [])
        (handle_product_price_changed p c)).0
      ≡ some (record old { product_id = p.product_id; price = p.new_price } ∷ [])
unfolding handle_product_price_changed merge_price
handle_product_price_changed-read core p old c real_branch real_product e =
    one_product-full core p.branch_id p.product_id
      (record old { product_id = p.product_id; price = p.new_price })
      (handle_product_price_changed p c)
      (let ids : (p.branch_id == 0 || p.product_id == 0) ≡ false = ground arith in
        let same : (p.branch_id == p.branch_id && p.product_id == p.product_id) ≡ true =
          ground arith in
        rw (handle_product_price_changed, ids, same, e) refl)
