-- ===== src/Order/Drafts.antt =====
-- `buildOrderLineDrafts` of app/order/service/order.service.ts, with `sumMinor` and `multiplyMinor` of
-- pkg/utils/money.ts. Amounts are whole numbers of the minor unit.
pub mod Prices
use quickbite_order_service.Prelude.{
  ℕ, ◌+◌, ◌*◌, Bool, true, false, not, Option, none, some, List, [], ◌∷◌, ◌==◌, ltb, is_some,
  if◌then◌else◌,
}
use quickbite_order_service.Prelude.Text.{Text}
use quickbite_order_service.Order.Core.{CoreBranchProduct}
use quickbite_order_service.Store.{Result, ok, err, UnavailableItem, out_of_stock}

pub record RequestedItem : Type 0 where
  pub product_id : ℕ
  pub quantity : ℕ

pub record OrderLineDraft : Type 0 where
  pub product_id : ℕ
  pub quantity : ℕ
  pub unit_price : ℕ
  pub line_total : ℕ
  pub name : Text
  pub image_url : Option Text

unfoldable pub sum_minor : List ℕ → ℕ
sum_minor [] = 0
sum_minor (v ∷ values) = v + sum_minor values

unfoldable pub multiply_minor : ℕ → ℕ → ℕ
multiply_minor unit_price quantity = unit_price * quantity

-- `byProduct.get(id)`: of two products with one id, the map keeps the later.
abbrev pub by_product : ℕ → List CoreBranchProduct → Option CoreBranchProduct
by_product id [] = none
by_product id (p ∷ products) =
    let rest = by_product id products in
    if is_some rest then rest else if p.product_id == id then some p else none

abbrev pub draft_of : RequestedItem → CoreBranchProduct → OrderLineDraft
draft_of it p = record {
  product_id = it.product_id;
  quantity = it.quantity;
  unit_price = p.price;
  line_total = multiply_minor p.price it.quantity;
  name = p.name;
  image_url = p.image_url;
}

-- One turn of the loop: a draft, or an item that is not available.
pub data Line : Type 0 where
  drafted : OrderLineDraft → Line
  unavailable : UnavailableItem → Line

abbrev pub line_of : RequestedItem → Option CoreBranchProduct → Line
line_of it none =
    unavailable (record { product_id = it.product_id; requested = it.quantity; available = 0 })
line_of it (some p) =
    if not p.is_available
    then unavailable (record { product_id = it.product_id; requested = it.quantity; available = 0 })
    else if ltb p.stock it.quantity
    then unavailable
        (record { product_id = it.product_id; requested = it.quantity; available = p.stock })
    else drafted (draft_of it p)

abbrev pub push_line :
    Line → List UnavailableItem × List OrderLineDraft → List UnavailableItem × List OrderLineDraft
push_line (drafted d) (us, ds) = (us, d ∷ ds)
push_line (unavailable u) (us, ds) = (u ∷ us, ds)

-- The loop over the requested items.
unfoldable pub lines_of :
    List RequestedItem → List CoreBranchProduct → List UnavailableItem × List OrderLineDraft
lines_of [] products = ([], [])
lines_of (it ∷ items) products =
    push_line (line_of it (by_product it.product_id products)) (lines_of items products)

abbrev pub refuse_unavailable :
    List UnavailableItem × List OrderLineDraft → Result (List OrderLineDraft)
refuse_unavailable ([], ds) = ok ds
refuse_unavailable (u ∷ us, ds) = err (out_of_stock (u ∷ us))

unfoldable pub build_order_line_drafts :
    List RequestedItem → List CoreBranchProduct → Result (List OrderLineDraft)
unfolding lines_of multiply_minor
build_order_line_drafts items products = refuse_unavailable (lines_of items products)
