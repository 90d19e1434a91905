-- ===== src/Order/CoreCache.antt =====
-- What the service keeps of core in Redis: the reads through the cache of
-- lib/core-client/branch.client.ts, and the handlers of core's events of
-- app/order/service/core-data-cache.service.ts. The cache answers, and its entries have not expired.
pub mod Priced
pub mod Refuses
use quickbite_order_service.Prelude.{
  ℕ, ◌&&◌, ◌||◌, ◌++◌, Bool, true, false, Option, none, some, List, [], ◌∷◌, ◌==◌, if◌then◌else◌,
  map,
}
use quickbite_order_service.Prelude.Text.{Text}
use quickbite_order_service.Order.Repo.{contains_id}
use quickbite_order_service.Order.Core.{CoreBranchMetadata, CoreBranchProduct}

-- An entry of a product: one that events alone have made has no name, and perhaps no price, no stock
-- and no availability; one that core has answered has everything.
pub data ProductEntry : Type 0 where
  partial_product : Option ℕ → Option ℕ → Option Bool → ProductEntry
  full_product : CoreBranchProduct → ProductEntry

-- The keys `core:branch:*`, `core:branch:*:product:*`, `branch:reject-new-orders:*` and
-- `core:restaurant:*`.
pub record CoreCache : Type 0 where
  pub branches : ℕ → Option CoreBranchMetadata
  pub products : ℕ → ℕ → Option ProductEntry
  pub rejecting : ℕ → Bool
  pub restaurants : ℕ → Bool

-- What core answers; `none` when the request fails.
pub record CoreAnswers : Type 0 where
  pub branch : ℕ → Option CoreBranchMetadata
  pub branch_products : ℕ → List ℕ → Option (List CoreBranchProduct)

abbrev set_branch : ℕ → Option CoreBranchMetadata → CoreCache → CoreCache
set_branch id entry c = record c { branches = λ i. if id == i then entry else c.branches i }

abbrev set_product : ℕ → ℕ → ProductEntry → CoreCache → CoreCache
set_product branch_id id entry c = record c {
  products = λ b i. if branch_id == b && id == i then some entry else c.products b i;
}

abbrev set_rejecting : ℕ → Bool → CoreCache → CoreCache
set_rejecting id flag c = record c { rejecting = λ i. if id == i then flag else c.rejecting i }

unfoldable get_branch : CoreAnswers → ℕ → CoreCache → Option CoreBranchMetadata × CoreCache
get_branch core id c = elim (c.branches id) [
  | some branch ↦ (some branch, c)
  | none ↦ elim (core.branch id) [
    | none ↦ (none, c)
    | some branch ↦ (some branch, set_branch id (some branch) c)
  ]
]

-- `Array.from(new Set(ids))`.
abbrev unique_after : List ℕ → List ℕ → List ℕ
unique_after seen [] = []
unique_after seen (id ∷ ids) =
    if contains_id seen id then unique_after seen ids else id ∷ unique_after (id ∷ seen) ids

-- The entries that are full, and the ids that are misses.
unfoldable cached_products : ℕ → List ℕ → CoreCache → List CoreBranchProduct
cached_products branch_id [] c = []
cached_products branch_id (id ∷ ids) c =
    let rest = cached_products branch_id ids c in
    elim (c.products branch_id id) [ some (full_product p) ↦ p ∷ rest | _ ↦ rest ]

unfoldable missed_products : ℕ → List ℕ → CoreCache → List ℕ
missed_products branch_id [] c = []
missed_products branch_id (id ∷ ids) c =
    let rest = missed_products branch_id ids c in
    elim (c.products branch_id id) [ some (full_product p) ↦ rest | _ ↦ id ∷ rest ]

abbrev set_products : ℕ → List CoreBranchProduct → CoreCache → CoreCache
set_products branch_id [] c = c
set_products branch_id (p ∷ ps) c =
    set_products branch_id ps (set_product branch_id p.product_id (full_product p) c)

unfoldable fetch_products :
    CoreAnswers
    → ℕ
    → List CoreBranchProduct
    → List ℕ
    → CoreCache
    → Option (List CoreBranchProduct) × CoreCache
fetch_products core branch_id cached [] c = (some cached, c)
fetch_products core branch_id cached (id ∷ ids) c =
    elim (core.branch_products branch_id (id ∷ ids)) [
      | none ↦ (none, c)
      | some found ↦ (some (cached ++ found), set_products branch_id found c)
    ]

unfoldable get_branch_products :
    CoreAnswers → ℕ → List ℕ → CoreCache → Option (List CoreBranchProduct) × CoreCache
get_branch_products core branch_id ids c =
    let unique = unique_after [] ids in
    fetch_products core branch_id (cached_products branch_id unique c)
      (missed_products branch_id unique c) c

pub record ProductStockChanged : Type 0 where
  pub branch_id : ℕ
  pub product_id : ℕ
  pub new_stock : Option ℕ
  pub is_available : Option Bool

pub record ProductPriceChanged : Type 0 where
  pub branch_id : ℕ
  pub product_id : ℕ
  pub new_price : ℕ

abbrev or_old : {A : Type 0} → Option A → A → A
or_old none old = old
or_old (some a) old = a

abbrev or_earlier : {A : Type 0} → Option A → Option A → Option A
or_earlier none old = old
or_earlier (some a) old = some a

unfoldable pub merge_stock : ProductStockChanged → Option ProductEntry → ProductEntry
merge_stock p none = partial_product none p.new_stock p.is_available
merge_stock p (some (partial_product price stock available)) =
    partial_product price (or_earlier p.new_stock stock) (or_earlier p.is_available available)
merge_stock p (some (full_product old)) = full_product (record old {
  product_id = p.product_id;
  stock = or_old p.new_stock old.stock;
  is_available = or_old p.is_available old.is_available;
})

unfoldable pub merge_price : ProductPriceChanged → Option ProductEntry → ProductEntry
merge_price p none = partial_product (some p.new_price) none none
merge_price p (some (partial_product price stock available)) =
    partial_product (some p.new_price) stock available
merge_price p (some (full_product old)) =
    full_product (record old { product_id = p.product_id; price = p.new_price })

-- A payload without its ids, or with an id 0, is ignored.
unfoldable pub handle_product_stock_changed : ProductStockChanged → CoreCache → CoreCache
handle_product_stock_changed p c =
    if p.branch_id == 0 || p.product_id == 0
    then c
    else set_product p.branch_id p.product_id (merge_stock p (c.products p.branch_id p.product_id))
        c

unfoldable pub handle_product_price_changed : ProductPriceChanged → CoreCache → CoreCache
handle_product_price_changed p c =
    if p.branch_id == 0 || p.product_id == 0
    then c
    else set_product p.branch_id p.product_id (merge_price p (c.products p.branch_id p.product_id))
        c

unfoldable pub handle_branch_updated : ℕ → CoreCache → CoreCache
handle_branch_updated id c = if id == 0 then c else set_rejecting id false (set_branch id none c)

unfoldable pub handle_branch_deactivated : ℕ → CoreCache → CoreCache
handle_branch_deactivated id c = if id == 0 then c else set_rejecting id true (set_branch id none c)

unfoldable pub handle_restaurant_suspended : ℕ → CoreCache → CoreCache
handle_restaurant_suspended id c =
    if id == 0
    then c
    else record c { restaurants = λ i. if id == i then false else c.restaurants i }

unfoldable pub is_branch_rejecting_orders : ℕ → CoreCache → Bool
is_branch_rejecting_orders id c = c.rejecting id

-- The events with a handler of this cache.
pub data CoreEvent : Type 0 where
  product_stock_changed : ProductStockChanged → CoreEvent
  product_price_changed : ProductPriceChanged → CoreEvent
  branch_updated branch_deactivated restaurant_suspended : ℕ → CoreEvent

unfoldable pub handle_event : CoreEvent → CoreCache → CoreCache
handle_event (product_stock_changed p) c = handle_product_stock_changed p c
handle_event (product_price_changed p) c = handle_product_price_changed p c
handle_event (branch_updated id) c = handle_branch_updated id c
handle_event (branch_deactivated id) c = handle_branch_deactivated id c
handle_event (restaurant_suspended id) c = handle_restaurant_suspended id c

abbrev pub handle_events : List CoreEvent → CoreCache → CoreCache
handle_events [] c = c
handle_events (e ∷ es) c = handle_events es (handle_event e c)
