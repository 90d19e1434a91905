-- ===== src/Order/Core.antt =====
-- What the service reads of core: lib/core-client/types.ts, and `flattenAddress` of
-- lib/core-client/address.client.ts. Coordinates are whole numbers of a small unit.
use quickbite_order_service.Prelude.{ℕ, Bool, true, false, Option, List, [], ◌∷◌, ◌++◌}
use quickbite_order_service.Prelude.Int.{ℤ}
use quickbite_order_service.Prelude.Text.{Text, codes}
use quickbite_order_service.Prelude.Rows.{select_where}

pub record CoreBranchMetadata : Type 0 where
  pub id : ℕ
  pub restaurant_id : ℕ
  pub restaurant_owner_id : ℕ
  pub restaurant_status : Text
  pub region : Text
  pub is_active : Bool
  pub accept_orders : Bool
  pub delivery_fee : ℕ
  pub commission_bps : ℕ
  pub currency : Text
  pub lat : ℤ
  pub lng : ℤ

pub record CoreBranchProduct : Type 0 where
  pub product_id : ℕ
  pub name : Text
  pub image_url : Option Text
  pub price : ℕ
  pub stock : ℕ
  pub is_available : Bool

pub record CoreCustomerAddress : Type 0 where
  pub id : ℕ
  pub user_id : ℕ
  pub country : Text
  pub city : Text
  pub street : Text
  pub building : Text
  pub lat : ℤ
  pub lng : ℤ

abbrev pub is_filled : Text → Bool
is_filled [] = false
is_filled (c ∷ s) = true

-- `parts.join(", ")`.
abbrev pub join_parts : List Text → Text
join_parts [] = []
join_parts (p ∷ []) = p
join_parts (p ∷ q ∷ parts) = p ++ codes ", " ++ join_parts (q ∷ parts)

unfoldable pub flatten_address : CoreCustomerAddress → Text
flatten_address a =
    join_parts (select_where is_filled (a.building ∷ a.street ∷ a.city ∷ a.country ∷ []))
