-- ===== src/Order/Status.antt =====
-- The order status machine: app/order/service/order-status.service.ts, with the types of
-- app/order/types.ts that it takes and returns. `Date.now()` is the argument `now`, in
-- milliseconds, like every time of the development.
pub mod Diagram
pub mod Rules
pub mod Refusals
pub mod Life
use quickbite_order_service.Prelude.{
  ℕ, ◌-◌, ◌*◌, Bool, true, false, ◌&&◌, ◌||◌, not, Option, none, some, List, [], ◌∷◌, any, ltb, leb,
  ◌==◌, if◌then◌else◌, is_some,
}
use quickbite_order_service.Prelude.Text.{Text}
use quickbite_order_service.Order.Enums.{
  OrderStatus, pending_payment, placed, accepted, rejected, preparing, ready, assigned, picked,
  delivered, cancelled, StatusActor, customer, restaurant_member, agent, system, admin, status_eq,
  actor_eq,
}

-- The columns that a transition may stamp.
pub data Stamp : Type 0 where
  accepted_at rejected_at ready_at assigned_at picked_at delivered_at cancelled_at : Stamp

-- One cell of the table.
pub record TransitionRule : Type 0 where
  pub actors : List StatusActor
  pub stamp : Option Stamp
  pub requires_reason : Bool

abbrev rule : List StatusActor → Option Stamp → Bool → Option TransitionRule
rule who column reason = some (record { actors = who; stamp = column; requires_reason = reason })

abbrev members : List StatusActor
members = restaurant_member ∷ []

abbrev staff_or_admin : List StatusActor
staff_or_admin = restaurant_member ∷ admin ∷ []

-- The table TRANSITIONS; a pair that is not listed has no rule.
unfoldable pub transitions : OrderStatus → OrderStatus → Option TransitionRule
transitions pending_payment placed = rule (system ∷ []) none false
transitions pending_payment cancelled = rule (customer ∷ system ∷ []) (some cancelled_at) false
transitions placed accepted = rule members (some accepted_at) false
transitions placed rejected = rule members (some rejected_at) true
transitions placed cancelled =
    rule (customer ∷ restaurant_member ∷ system ∷ admin ∷ []) (some cancelled_at) true
transitions accepted preparing = rule members none false
transitions accepted cancelled = rule staff_or_admin (some cancelled_at) true
transitions preparing ready = rule members (some ready_at) false
transitions preparing cancelled = rule staff_or_admin (some cancelled_at) true
transitions ready assigned = rule (system ∷ []) (some assigned_at) false
transitions ready cancelled = rule staff_or_admin (some cancelled_at) true
transitions assigned picked = rule (agent ∷ []) (some picked_at) false
transitions assigned cancelled = rule (admin ∷ []) (some cancelled_at) true
transitions picked delivered = rule (agent ∷ []) (some delivered_at) false
transitions _ _ = none

-- The context of a check; `acceptedAt` and `placedAt` may be missing.
pub record AssertTransitionContext : Type 0 where
  pub actor : StatusActor
  pub reason : Option Text
  pub placed_at : Option ℕ
  pub accepted_at : Option ℕ

-- What a check answers: the column to stamp, or the error that it throws.
pub data TransitionResult : Type 0 where
  stamped : Option Stamp → TransitionResult
  invalid_status_transition : TransitionResult
  reason_required : TransitionResult
  cancellation_window_expired : TransitionResult

abbrev pub customer_cancel_window_ms : ℕ
customer_cancel_window_ms = 60 * 1000

-- The white space and line ends that `trim` removes.
abbrev pub is_space : ℕ → Bool
is_space c =
    leb 9 c && leb c 13
    || c == 32
    || c == 160
    || c == 0x1680
    || leb 0x2000 c && leb c 0x200a
    || c == 0x2028
    || c == 0x2029
    || c == 0x202f
    || c == 0x205f
    || c == 0x3000
    || c == 0xfeff

-- `s.trim().length === 0`: nothing is left exactly if every character is white space.
unfoldable pub trims_to_nothing : Text → Bool
trims_to_nothing [] = true
trims_to_nothing (c ∷ s) = is_space c && trims_to_nothing s

-- `!ctx.reason || ctx.reason.trim().length === 0`.
unfoldable pub is_blank : Option Text → Bool
is_blank none = true
is_blank (some s) = trims_to_nothing s

-- The customer's window is over: the order was accepted, or placed more than a minute ago.
-- `-` stops at 0, where the source has a negative difference; neither is past the window.
unfoldable pub window_expired : ℕ → AssertTransitionContext → Bool
window_expired now ctx =
    if is_some ctx.accepted_at
    then true
    else elim ctx.placed_at [ none ↦ false | some t ↦ ltb customer_cancel_window_ms (now - t) ]

check_rule :
    ℕ → OrderStatus → OrderStatus → AssertTransitionContext → TransitionRule → TransitionResult
unfolding window_expired
check_rule now from to ctx allowed =
    if not (any (λ a. actor_eq a ctx.actor) allowed.actors)
    then invalid_status_transition
    else if allowed.requires_reason && is_blank ctx.reason
    then reason_required
    else if actor_eq ctx.actor customer
        && status_eq to cancelled
        && status_eq from placed
        && window_expired now ctx
    then cancellation_window_expired
    else stamped allowed.stamp

unfoldable pub assert_transition :
    ℕ → OrderStatus → OrderStatus → AssertTransitionContext → TransitionResult
unfolding transitions check_rule
assert_transition now from to ctx = elim (transitions from to) [
  | none ↦ invalid_status_transition
  | some allowed ↦ check_rule now from to ctx allowed
]
