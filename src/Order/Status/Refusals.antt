-- ===== src/Order/Status/Refusals.antt =====
-- Which error the status check answers, and when.
use mathlib.Core.Path.{subst}
use quickbite_order_service.Prelude.{
  ℕ, ◌≡◌, ◌↔◌, true, false, some, arith, Option-cases, inl, inr, any, Bool, refl, sym, ◌∙◌,
}
use quickbite_order_service.Order.Enums.{OrderStatus, StatusActor, actor_eq}
use quickbite_order_service.Order.Status.{
  transitions, check_rule, is_blank, AssertTransitionContext, TransitionRule,
  invalid_status_transition, reason_required, assert_transition,
}
use quickbite_order_service.Order.Status.Diagram.{Edge}
use quickbite_order_service.Order.Status.Rules.{
  needs_reason, transitions-Edge, Edge-transitions, no_rule-no_edge,
}

not_true : (b : Bool) → ¬ (b ≡ true) → b ≡ false
not_true true h = absurd (h refl)
not_true false h = refl

-- The rule that an edge has, at a rule that is known already.
Edge-rule :
    (from to : OrderStatus) (a : StatusActor) (r : TransitionRule)
    → Edge a from to
    → transitions from to ≡ some r
    → (any (λ b. actor_eq b a) r.actors ≡ true) × (r.requires_reason ≡ needs_reason from to)
Edge-rule from to a r edge known =
    let (r', known', member, column, reason) = Edge-transitions edge in
    let same : r' ≡ r = cc in
    subst
      (λ q. (any (λ b. actor_eq b a) q.actors ≡ true) × (q.requires_reason ≡ needs_reason from to))
      same (member, reason)

check_rule-invalid :
    (now : ℕ) (from to : OrderStatus) (ctx : AssertTransitionContext) (r : TransitionRule)
    → (check_rule now from to ctx r ≡ invalid_status_transition)
      ↔ (any (λ b. actor_eq b ctx.actor) r.actors ≡ false)
unfolding check_rule
check_rule-invalid now from to ctx r = (λ h. ground arith, λ h. rw h)

check_rule-reason_required :
    (now : ℕ) (from to : OrderStatus) (ctx : AssertTransitionContext) (r : TransitionRule)
    → (check_rule now from to ctx r ≡ reason_required) ↔ (
        (any (λ b. actor_eq b ctx.actor) r.actors ≡ true)
        × (r.requires_reason ≡ true)
        × (is_blank ctx.reason ≡ true))
unfolding check_rule
check_rule-reason_required now from to ctx r =
    (λ h. (ground arith, ground arith, ground arith), λ h. rw (h.0, h.1, h.2))

-- The check answers InvalidStatusTransition exactly if the diagram has no edge for the actor.
pub assert_transition-invalid :
    (now : ℕ) (from to : OrderStatus) (ctx : AssertTransitionContext)
    → (assert_transition now from to ctx ≡ invalid_status_transition) ↔ (¬ Edge ctx.actor from to)
unfolding assert_transition
assert_transition-invalid now from to ctx = elim (Option-cases (transitions from to)) [
  | inl e ↦ (λ h. no_rule-no_edge e, λ no_edge. rw (e, assert_transition))
  | inr (r, e) ↦
      rw (e, assert_transition)
        (
          λ h edge. cc (
            (check_rule-invalid now from to ctx r).0 h,
            (Edge-rule from to ctx.actor r edge e).0,
          ),
          λ no_edge. (check_rule-invalid now from to ctx r).1 (
              not_true (any (λ b. actor_eq b ctx.actor) r.actors)
                (λ m. no_edge (transitions-Edge from to ctx.actor r e m))),
        )
]

-- The check asks for a reason exactly if the edge is there, it needs a reason, and none but white
-- space was given.
assert_transition-reason_required :
    (now : ℕ) (from to : OrderStatus) (ctx : AssertTransitionContext)
    → (assert_transition now from to ctx ≡ reason_required)
      ↔ (Edge ctx.actor from to × (needs_reason from to ≡ true) × (is_blank ctx.reason ≡ true))
unfolding assert_transition
assert_transition-reason_required now from to ctx = elim (Option-cases (transitions from to)) [
  | inl e ↦ rw (e, assert_transition) (λ h. cc, λ al. absurd (no_rule-no_edge e al.0))
  | inr (r, e) ↦
      rw (e, assert_transition)
        (
          λ h.
              let (member, needed, blank) = (check_rule-reason_required now from to ctx r).0 h in
              let edge = transitions-Edge from to ctx.actor r e member in
              (edge, sym (Edge-rule from to ctx.actor r edge e).1 ∙ needed, blank),
          λ al.
              let (member, reason) = Edge-rule from to ctx.actor r al.0 e in
              (check_rule-reason_required now from to ctx r).1 (member, reason ∙ al.1, al.2),
        )
]
