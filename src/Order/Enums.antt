-- ===== src/Order/Enums.antt =====
-- The enumerations of app/order/enums.ts. A constructor stands for the string of its member.
use Prim.Native.Nat.{ℕ}
use mathlib.Core.Path.{◌≡◌}
use mathlib.Core.Logic.{◌↔◌}
use mathlib.Core.Bool.{Bool, true, false}
use native.Mathlib.Omega.{arith}
use quickbite_order_service.Prelude.{◌==◌}

pub data OrderStatus : Type 0 where
  pending_payment placed accepted rejected preparing : OrderStatus
  ready assigned picked delivered cancelled : OrderStatus

pub data PaymentMethod : Type 0 where
  online cod : PaymentMethod

-- Who drives a transition; `restaurant_member` covers owner, branch manager and staff.
pub data StatusActor : Type 0 where
  customer restaurant_member agent system admin : StatusActor

-- The place of a member in its enumeration, by which members are compared.
abbrev pub status_index : OrderStatus → ℕ
status_index pending_payment = 0
status_index placed = 1
status_index accepted = 2
status_index rejected = 3
status_index preparing = 4
status_index ready = 5
status_index assigned = 6
status_index picked = 7
status_index delivered = 8
status_index cancelled = 9

-- `===` on statuses.
abbrev pub status_eq : OrderStatus → OrderStatus → Bool
status_eq a b = status_index a == status_index b

abbrev pub method_eq : PaymentMethod → PaymentMethod → Bool
method_eq online online = true
method_eq cod cod = true
method_eq _ _ = false

abbrev pub actor_index : StatusActor → ℕ
actor_index customer = 0
actor_index restaurant_member = 1
actor_index agent = 2
actor_index system = 3
actor_index admin = 4

abbrev pub actor_eq : StatusActor → StatusActor → Bool
actor_eq a b = actor_index a == actor_index b

pub status_eq_iff : (a b : OrderStatus) → (status_eq a b ≡ true) ↔ (a ≡ b)
status_eq_iff a b = ground arith
