-- ===== src/Order/CoreCache/Refuses.antt =====
-- A branch that core has deactivated takes no order: the events of core together with placeOrder.
use quickbite_order_service.Prelude.{
  ◌≡◌, ◌≢◌, refl, ◌∙◌, true, Option, List, All, inl, inr, Bool-cases,
}
use quickbite_order_service.Prelude.Text.{Text}
use quickbite_order_service.Order.Core.{CoreBranchMetadata}
use quickbite_order_service.Order.Access.{ActorContext}
use quickbite_order_service.Order.Place.{
  Answers, PlaceConfig, CreateOrderRequest, accepts_orders, place_order,
}
use quickbite_order_service.Order.CoreCache.{
  CoreCache, CoreEvent, branch_deactivated, handle_event, handle_events, is_branch_rejecting_orders,
}
use quickbite_order_service.Order.CoreCache.Priced.{
  NotUpdateOf, handle_branch_deactivated-rejecting,
}
use quickbite_order_service.Store.{Env, World, ok, err, branch_not_accepting_orders, throw_if}
use quickbite_order_service.Store.Laws.{steps}

place_order-rejecting :
    (env pay_env void_env : Env) (cfg : PlaceConfig) (answers : Answers) (actor : ActorContext)
    (body : CreateOrderRequest) (region : Option Text) (w : World) (branch : CoreBranchMetadata)
    → answers.branch ≡ ok branch
    → answers.is_rejecting ≡ true
    → place_order env pay_env void_env cfg answers actor body region w
      ≡ (err branch_not_accepting_orders, w)
unfolding place_order
place_order-rejecting env pay_env void_env cfg answers actor body region w branch found rejecting =
    elim (Bool-cases (accepts_orders branch)) [
      | inl e ↦ rw (place_order, steps, found, throw_if, e, rejecting) refl
      | inr e ↦ rw (place_order, steps, found, throw_if, e) refl
    ]

-- From the handling of a branch's deactivation on, whatever events of core come after it but an update
-- of that branch, and for as long as the flag stays, an order of that branch whose metadata is found is
-- refused as BranchNotAcceptingOrders, whatever these say, and nothing is written, reserved or sent.
pub place_order-deactivated :
    (env pay_env void_env : Env) (cfg : PlaceConfig) (answers : Answers) (actor : ActorContext)
    (body : CreateOrderRequest) (region : Option Text) (w : World) (branch : CoreBranchMetadata)
    (cache : CoreCache) (events : List CoreEvent)
    → body.branch_id ≢ 0
    → All (NotUpdateOf body.branch_id) events
    → answers.branch ≡ ok branch
    → answers.is_rejecting
      ≡ is_branch_rejecting_orders body.branch_id
          (handle_events events (handle_event (branch_deactivated body.branch_id) cache))
    → place_order env pay_env void_env cfg answers actor body region w
      ≡ (err branch_not_accepting_orders, w)
place_order-deactivated env pay_env void_env cfg answers actor body region w branch cache events
      real others found asked =
    place_order-rejecting env pay_env void_env cfg answers actor body region w branch found
      (asked ∙ handle_branch_deactivated-rejecting body.branch_id events cache real others)
