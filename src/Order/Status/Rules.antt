-- ===== src/Order/Status/Rules.antt =====
-- The status check against the diagram: what it accepts, which error it answers, and how long the
-- life of an order can be.
use mathlib.Core.Path.{subst}
use quickbite_order_service.Prelude.{
  ℕ, ◌+◌, ◌≤◌, ◌≡◌, refl, ◌↔◌, Bool, true, false, Option, none, some, arith, any, Option-cases, ap,
  sym, ◌∙◌, inl, inr,
}
use quickbite_order_service.Order.Enums.{
  OrderStatus, pending_payment, placed, accepted, rejected, ready, assigned, picked, delivered,
  cancelled, StatusActor, customer, system, actor_eq, status_eq_iff,
}
use quickbite_order_service.Order.Status.{
  Stamp, accepted_at, rejected_at, ready_at, assigned_at, picked_at, delivered_at, cancelled_at,
  TransitionRule, transitions, check_rule, is_blank, window_expired, AssertTransitionContext,
  stamped, assert_transition,
}
use quickbite_order_service.Order.Status.Diagram.{
  Edge, edges, pay, kitchen_cancel, admin_cancel, accepted_in, preparing_in, ready_in,
}

-- The column that records the arrival in a status.
abbrev pub stamp_for : OrderStatus → Option Stamp
stamp_for accepted = some accepted_at
stamp_for rejected = some rejected_at
stamp_for ready = some ready_at
stamp_for assigned = some assigned_at
stamp_for picked = some picked_at
stamp_for delivered = some delivered_at
stamp_for cancelled = some cancelled_at
stamp_for _ = none

-- Ending an order that has been placed needs a reason.
abbrev pub needs_reason : OrderStatus → OrderStatus → Bool
needs_reason pending_payment _ = false
needs_reason _ rejected = true
needs_reason _ cancelled = true
needs_reason _ _ = false

-- What an accepted check stands for.
pub record Allowed (now : ℕ) (from to : OrderStatus) (ctx : AssertTransitionContext) : Type 0 where
  pub edge : Edge ctx.actor from to
  pub explained : needs_reason from to ≡ true → is_blank ctx.reason ≡ false
  pub unaccepted : ctx.actor ≡ customer → from ≡ placed → to ≡ cancelled → ctx.accepted_at ≡ none
  pub in_window :
      (t : ℕ)
      → ctx.actor ≡ customer
      → from ≡ placed
      → to ≡ cancelled
      → ctx.placed_at ≡ some t
      → now ≤ t + 60000

-- A rule that names an actor is an edge of the diagram.
pub transitions-Edge :
    (from to : OrderStatus) (a : StatusActor) (r : TransitionRule)
    → transitions from to ≡ some r
    → any (λ b. actor_eq b a) r.actors ≡ true
    → Edge a from to
unfolding transitions
transitions-Edge pending_payment placed system r h m = search edges
transitions-Edge _ _ _ r h m = grind (arith, edges)

-- An edge of the diagram has its rule, which names the actor, the stamp and the need of a reason.
pub Edge-transitions :
    {a : StatusActor} {from to : OrderStatus}
    → Edge a from to
    → (r : TransitionRule) × (transitions from to ≡ some r)
      × (any (λ b. actor_eq b a) r.actors ≡ true)
      × (r.stamp ≡ stamp_for to)
      × (r.requires_reason ≡ needs_reason from to)
unfolding transitions
Edge-transitions pay = (_, refl, refl, refl, refl)
Edge-transitions (kitchen_cancel accepted_in) = (_, refl, refl, refl, refl)
Edge-transitions (kitchen_cancel preparing_in) = (_, refl, refl, refl, refl)
Edge-transitions (kitchen_cancel ready_in) = (_, refl, refl, refl, refl)
Edge-transitions (admin_cancel accepted_in) = (_, refl, refl, refl, refl)
Edge-transitions (admin_cancel preparing_in) = (_, refl, refl, refl, refl)
Edge-transitions (admin_cancel ready_in) = (_, refl, refl, refl, refl)
Edge-transitions _ = (_, refl, refl, refl, refl)

-- Where the table has no rule, the diagram has no edge.
pub no_rule-no_edge :
    {a : StatusActor} {from to : OrderStatus} → transitions from to ≡ none → ¬ Edge a from to
no_rule-no_edge e edge = let (r, known, _, _, _) = Edge-transitions edge in cc

check_rule-Allowed :
    (now : ℕ) (from to : OrderStatus) (ctx : AssertTransitionContext) (r : TransitionRule)
    {c : Option Stamp}
    → transitions from to ≡ some r
    → check_rule now from to ctx r ≡ stamped c
    → Allowed now from to ctx × (c ≡ stamp_for to)
unfolding check_rule window_expired
check_rule-Allowed now from to ctx r known h =
    let member : any (λ b. actor_eq b ctx.actor) r.actors ≡ true = ground arith in
    let edge = transitions-Edge from to ctx.actor r known member in
    let (r', known', _, column, reason) = Edge-transitions edge in
    let same : r' ≡ r = cc in
    (
      record {
        edge = edge;
        explained = λ e. ground arith;
        unaccepted = λ a f t. ground arith;
        in_window = λ t a f g p. ground arith;
      },
      ground arith,
    )

Allowed-check_rule :
    (now : ℕ) (from to : OrderStatus) (ctx : AssertTransitionContext) (r : TransitionRule)
    → transitions from to ≡ some r
    → Allowed now from to ctx
    → check_rule now from to ctx r ≡ stamped (stamp_for to)
unfolding check_rule window_expired
Allowed-check_rule now from to ctx r known al =
    let (r', known', member', column, reason) = Edge-transitions al.edge in
    let same : r' ≡ r = cc in
    let member : any (λ b. actor_eq b ctx.actor) r.actors ≡ true =
      subst (λ q. any (λ b. actor_eq b ctx.actor) q.actors ≡ true) same member' in
    elim (Option-cases ctx.placed_at) [
      | inl e ↦ ground (
        arith,
        al.explained,
        al.unaccepted,
        status_eq_iff from placed,
        status_eq_iff to cancelled,
      )
      | inr (t, e) ↦ ground (
        arith,
        al.explained,
        al.unaccepted,
        al.in_window t,
        status_eq_iff from placed,
        status_eq_iff to cancelled,
      )
    ]

-- A status check answers `stamped c` exactly if the diagram has the edge for this actor, a rejection
-- or the cancellation of an order that was placed has a reason that is not blank, a customer who
-- cancels a placed order does so before it is accepted and within a minute of the time given for its
-- placing, if one is given, and `c` is the column of the new status.
pub assert_transition_iff :
    (now : ℕ) (from to : OrderStatus) (ctx : AssertTransitionContext) (c : Option Stamp)
    → (assert_transition now from to ctx ≡ stamped c)
      ↔ (Allowed now from to ctx × (c ≡ stamp_for to))
unfolding assert_transition
assert_transition_iff now from to ctx c = elim (Option-cases (transitions from to)) [
  | inl e ↦ rw (e, assert_transition) (λ h. cc, λ al. absurd (no_rule-no_edge e al.0.edge))
  | inr (r, e) ↦
      rw (e, assert_transition)
        (
          check_rule-Allowed now from to ctx r e,
          λ al. Allowed-check_rule now from to ctx r e al.0 ∙ ap stamped (sym al.1),
        )
]
