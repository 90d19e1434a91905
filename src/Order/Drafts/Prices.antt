-- ===== src/Order/Drafts/Prices.antt =====
-- When the lines of an order are drafted, and at what price.
use mathlib.Core.Path.{subst}
use quickbite_order_service.Prelude.{
  ◌≤◌, ◌≡◌, ◌↔◌, refl, true, false, some, List, [], ◌∷◌, ltb, arith, Bool-cases, Option-cases, All,
  ◌==◌, ◌*◌, ℕ, none, ap, ◌∙◌, inl, inr,
}
use quickbite_order_service.Order.Core.{CoreBranchProduct}
use quickbite_order_service.Order.Drafts.{
  RequestedItem, OrderLineDraft, by_product, draft_of, drafted, unavailable, multiply_minor,
  push_line, lines_of, refuse_unavailable, build_order_line_drafts,
}
use quickbite_order_service.Store.{ok, UnavailableItem}

-- The last of the products that has the id.
pub data LastWith (id : ℕ) (p : CoreBranchProduct) : List CoreBranchProduct → Type 0 where
  last_here :
      {after : List CoreBranchProduct}
      → p.product_id ≡ id
      → All (λ q. (q.product_id == id) ≡ false) after
      → LastWith id p (p ∷ after)
  further_on :
      {q : CoreBranchProduct} {products : List CoreBranchProduct}
      → LastWith id p products
      → LastWith id p (q ∷ products)

by_product-none :
    (id : ℕ) (products : List CoreBranchProduct)
    → by_product id products ≡ none
    → All (λ q. (q.product_id == id) ≡ false) products
by_product-none id [] h = tt
by_product-none id (q ∷ products) h = (ground arith, by_product-none id products (ground arith))

none-by_product :
    (id : ℕ) (products : List CoreBranchProduct)
    → All (λ q. (q.product_id == id) ≡ false) products
    → by_product id products ≡ none
none-by_product id [] h = refl
none-by_product id (q ∷ products) (h, hs) = rw (none-by_product id products hs, h)

by_product-LastWith :
    (id : ℕ) (p : CoreBranchProduct) (products : List CoreBranchProduct)
    → by_product id products ≡ some p
    → LastWith id p products
by_product-LastWith id p [] h = cc
by_product-LastWith id p (q ∷ products) h = elim (Option-cases (by_product id products)) [
  | inr (r, e) ↦
      let same : r ≡ p = ground arith in
      further_on (by_product-LastWith id p products (e ∙ ap some same))
  | inl e ↦
      let own : (q.product_id == id) ≡ true = ground arith in
      let same : q ≡ p = ground arith in
      subst (λ x. LastWith id x (q ∷ products)) same
        (last_here (ground arith) (by_product-none id products e))
]

LastWith-by_product :
    {id : ℕ} {p : CoreBranchProduct} {products : List CoreBranchProduct}
    → LastWith id p products
    → by_product id products ≡ some p
LastWith-by_product {id = id} (last_here {after = after} own others) =
    rw (none-by_product id after others, own) (ground arith)
LastWith-by_product (further_on later) = rw (LastWith-by_product later)

-- The lines of the items in their order: core knows the product of each, offers it, has enough of it,
-- and the line has its price.
pub data ArePriced (products : List CoreBranchProduct)
    : List RequestedItem → List OrderLineDraft → Type 0 where
  nothing_asked : ArePriced products [] []
  next_priced :
      {it : RequestedItem} {items : List RequestedItem} {ds : List OrderLineDraft}
      (p : CoreBranchProduct)
      → LastWith it.product_id p products
      → p.is_available ≡ true
      → it.quantity ≤ p.stock
      → ArePriced products items ds
      → ArePriced products (it ∷ items) (
          record {
            product_id = it.product_id;
            quantity = it.quantity;
            unit_price = p.price;
            line_total = p.price * it.quantity;
            name = p.name;
            image_url = p.image_url;
          }
          ∷ ds)

push_unavailable :
    (u : UnavailableItem) (r : List UnavailableItem × List OrderLineDraft)
    {ds : List OrderLineDraft}
    → refuse_unavailable (push_line (unavailable u) r) ≡ ok ds
    → ⊥
push_unavailable u (us, es) h = cc

push_drafted :
    (d : OrderLineDraft) (r : List UnavailableItem × List OrderLineDraft) (ds : List OrderLineDraft)
    → refuse_unavailable (push_line (drafted d) r) ≡ ok ds
    → (es : List OrderLineDraft) × (refuse_unavailable r ≡ ok es) × (d ∷ es ≡ ds)
push_drafted d ([], es) ds h = (es, refl, ground arith)
push_drafted d (u ∷ us, es) ds h = absurd (ground arith)

pushed :
    (d : OrderLineDraft) (r : List UnavailableItem × List OrderLineDraft) {ds : List OrderLineDraft}
    → refuse_unavailable r ≡ ok ds
    → refuse_unavailable (push_line (drafted d) r) ≡ ok (d ∷ ds)
pushed d ([], es) h = ground arith
pushed d (u ∷ us, es) h = absurd (ground arith)

priced :
    (items : List RequestedItem) (products : List CoreBranchProduct) (ds : List OrderLineDraft)
    → refuse_unavailable (lines_of items products) ≡ ok ds
    → ArePriced products items ds
unfolding lines_of multiply_minor
priced [] products [] h = nothing_asked
priced [] products (d ∷ ds) h = absurd (ground arith)
priced (it ∷ items) products ds h = elim (Option-cases (by_product it.product_id products)) [
  | inl missing ↦ absurd (push_unavailable _ (lines_of items products) (rw missing at h))
  | inr (p, known) ↦ elim (Bool-cases p.is_available) [
    | inr off ↦ absurd (push_unavailable _ (lines_of items products) (rw (known, off) at h))
    | inl offered ↦ elim (Bool-cases (ltb p.stock it.quantity)) [
      | inl short ↦
          absurd (push_unavailable _ (lines_of items products) (rw (known, offered, short) at h))
      | inr enough ↦
          let r =
            push_drafted (draft_of it p) (lines_of items products) ds
              (rw (known, offered, enough) at h) in
          subst (ArePriced products (it ∷ items)) r.2 (
            next_priced p (by_product-LastWith it.product_id p products known) offered
              (ground arith) (priced items products r.0 r.1))
    ]
  ]
]

drafts_at :
    {products : List CoreBranchProduct} {items : List RequestedItem} {ds : List OrderLineDraft}
    → ArePriced products items ds
    → refuse_unavailable (lines_of items products) ≡ ok ds
unfolding lines_of multiply_minor
drafts_at nothing_asked = refl
drafts_at {products = products} {items = it ∷ items} (next_priced p known offered enough rest) =
    let covered : ltb p.stock it.quantity ≡ false = ground arith in
    rw (LastWith-by_product known, offered, covered)
      (pushed (draft_of it p) (lines_of items products) (drafts_at rest))

-- An order is drafted exactly if every product that it asks for is known, offered and in stock, and
-- then each line, in the order of the request, has the price of its product and the price times the
-- quantity as its total.
pub build_order_line_drafts_iff :
    (items : List RequestedItem) (products : List CoreBranchProduct) (ds : List OrderLineDraft)
    → (build_order_line_drafts items products ≡ ok ds) ↔ ArePriced products items ds
unfolding build_order_line_drafts
build_order_line_drafts_iff items products ds = (priced items products ds, drafts_at)
