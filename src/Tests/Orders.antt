-- ===== src/Tests/Orders.antt =====
-- Runs of the status machine, of access, and of placing an order.
use quickbite_order_service.Prelude.{
  arith, ℕ, ◌≡◌, ◌≢◌, ◌↔◌, ◌⊎◌, ◌≤◌, refl, ap, true, false, Option, none, some, List, [], ◌∷◌,
}
use quickbite_order_service.Prelude.Text.{Text, codes, text_eq}
use quickbite_order_service.Prelude.Int.{pos}
use quickbite_order_service.Order.Enums.{
  placed, accepted, cod, restaurant_member, agent, StatusActor,
}
use quickbite_order_service.Order.Entity.{OrderEntity}
use quickbite_order_service.Order.Status.{
  AssertTransitionContext, stamped, accepted_at, assert_transition,
}
use quickbite_order_service.Order.Status.Diagram.{accept}
use quickbite_order_service.Order.Status.Rules.{Allowed, stamp_for, assert_transition_iff}
use quickbite_order_service.Order.Status.Life.{start, then, History-bounded}
use quickbite_order_service.Order.Access.{
  system_admin, delivery_agent, assert_read_access, resolve_status_actor,
}
use quickbite_order_service.Order.Access.Laws.{
  IsMember, assert_read_access_iff, resolve_status_actor_sound,
}
use quickbite_order_service.Order.Service.{
  UpdateOrderStatusRequest, transition_context, update_status,
}
use quickbite_order_service.Order.Service.UpdateStatus.{
  Accepts, moved, update_status-Accepts, update_status_ok, update_status-err,
}
use quickbite_order_service.Order.Core.{CoreBranchProduct}
use quickbite_order_service.Order.Drafts.{RequestedItem, OrderLineDraft, build_order_line_drafts}
use quickbite_order_service.Order.Drafts.Prices.{ArePriced, build_order_line_drafts_iff}
use quickbite_order_service.Order.Place.{CreateOrderRequest, Answers, PlaceConfig, place_order}
use quickbite_order_service.Order.CoreCache.{
  CoreCache, CoreEvent, product_price_changed, branch_updated, branch_deactivated, handle_event,
  handle_events, is_branch_rejecting_orders,
}
use quickbite_order_service.Order.CoreCache.Refuses.{place_order-deactivated}
use quickbite_order_service.Order.Repo.{find_order_by_public_id}
use quickbite_order_service.Store.{
  World, ok, err, order_not_found, infrastructure, branch_not_accepting_orders,
}
use quickbite_order_service.Tests.Data.{
  env_1, env_2, order_id_1, order_in, world_of, owner_actor, customer_actor,
}

abbrev member_ctx : Option Text → AssertTransitionContext
member_ctx reason = record {
  actor = restaurant_member;
  reason = reason;
  placed_at = some 1000;
  accepted_at = none;
}

assert_transition_iff_example :
    (assert_transition 5000 placed accepted (member_ctx none) ≡ stamped (some accepted_at))
    ↔ (Allowed 5000 placed accepted (member_ctx none) × (some accepted_at ≡ stamp_for accepted))
assert_transition_iff_example =
    assert_transition_iff 5000 placed accepted (member_ctx none) (some accepted_at)

accepted_once :
    assert_transition 5000 placed accepted (member_ctx none) ≡ stamped (some accepted_at)
unfolding assert_transition
accepted_once = refl

History-bounded_example : (1 ≤ 7) × (placed ≡ accepted → ◌≡◌ {A = ℕ} 1 0)
History-bounded_example =
    History-bounded (then 5000 (member_ctx none) (some accepted_at) start accepted_once)

abbrev order_1 : OrderEntity
order_1 = order_in placed cod none

assert_read_access_iff_example : (assert_read_access customer_actor order_1 ≡ ok tt) ↔ (
    (customer_actor.role ≡ system_admin)
    ⊎ (customer_actor.user_id ≡ order_1.customer_id)
    ⊎ IsMember customer_actor order_1)
assert_read_access_iff_example = assert_read_access_iff customer_actor order_1

resolve_status_actor_sound_example :
    ((resolve_status_actor owner_actor order_1 ≡ ok restaurant_member)
      ↔ IsMember owner_actor order_1)
    × ((resolve_status_actor owner_actor order_1 ≡ ok StatusActor.admin)
        ↔ (owner_actor.role ≡ system_admin))
    × (resolve_status_actor owner_actor order_1 ≡ ok agent
        → owner_actor.user_id ≢ 0
        → (owner_actor.role ≡ delivery_agent) × (order_1.delivery_agent_id ≡ some 40))
resolve_status_actor_sound_example = resolve_status_actor_sound owner_actor order_1

abbrev world_1 : World
world_1 = world_of order_1 none none

abbrev accept_request : UpdateOrderStatusRequest
accept_request = record { status = accepted; reason = none }

Accepts-order_1 :
    Accepts env_1 owner_actor order_id_1 accept_request world_1 order_1 restaurant_member
unfolding resolve_status_actor text_eq transition_context
Accepts-order_1 = record {
  found = refl;
  resolved = refl;
  allowed = record {
    edge = accept;
    explained = λ e. cc;
    unaccepted = λ e f t. cc;
    in_window = λ t e f g. cc;
  };
  committed = refl;
}

accepted_run :
    (update_status env_1 owner_actor order_id_1 accept_request world_1).0
    ≡ ok (moved env_1 accept_request order_1)
accepted_run =
    ap (λ r. r.0)
      (update_status-Accepts env_1 owner_actor order_id_1 accept_request world_1 order_1
        restaurant_member Accepts-order_1)

update_status_ok_example :
    (order : OrderEntity) × (who : StatusActor) × Accepts env_1 owner_actor order_id_1
      accept_request world_1 order who
update_status_ok_example =
    update_status_ok env_1 owner_actor order_id_1 accept_request world_1 accepted_run

missing_run :
    (update_status env_1 owner_actor (2 ∷ []) accept_request world_1).0 ≡ err order_not_found
unfolding update_status find_order_by_public_id text_eq
missing_run = refl

update_status-err_example :
    (update_status env_1 owner_actor (2 ∷ []) accept_request world_1).1 ≡ world_1
update_status-err_example =
    update_status-err env_1 owner_actor (2 ∷ []) accept_request world_1 missing_run

-- Two dishes at 60.
abbrev dish : CoreBranchProduct
dish = record {
  product_id = 3;
  name = codes "Koshary";
  image_url = none;
  price = 60;
  stock = 5;
  is_available = true;
}

abbrev two_dishes : List RequestedItem
two_dishes = record { product_id = 3; quantity = 2 } ∷ []

abbrev two_lines : List OrderLineDraft
two_lines =
    record {
      product_id = 3;
      quantity = 2;
      unit_price = 60;
      line_total = 120;
      name = codes "Koshary";
      image_url = none;
    }
    ∷ []

build_order_line_drafts_iff_example :
    (build_order_line_drafts two_dishes (dish ∷ []) ≡ ok two_lines)
    ↔ ArePriced (dish ∷ []) two_dishes two_lines
build_order_line_drafts_iff_example = build_order_line_drafts_iff two_dishes (dish ∷ []) two_lines

abbrev place_request : CreateOrderRequest
place_request = record {
  branch_id = 5;
  customer_address_id = 7;
  payment_method = cod;
  items = two_dishes;
}

abbrev place_config : PlaceConfig
place_config = record {
  regions = codes "eg" ∷ [];
  online_regions = [];
  session_ttl_ms = 1000;
  to_lower = λ t. t;
}

abbrev place_answers : Answers
place_answers = record {
  branch = ok (record {
    id = 5;
    restaurant_id = 4;
    restaurant_owner_id = 40;
    restaurant_status = codes "active";
    region = codes "eg";
    is_active = true;
    accept_orders = true;
    delivery_fee = 30;
    commission_bps = 1000;
    currency = codes "EGP";
    lat = pos 1;
    lng = pos 2;
  });
  is_rejecting = false;
  address = ok (record {
    id = 7;
    user_id = 6;
    country = codes "EG";
    city = codes "Cairo";
    street = codes "Nile";
    building = [];
    lat = pos 3;
    lng = pos 4;
  });
  products = ok (dish ∷ []);
  reserved = ok tt;
  session = err infrastructure;
}

abbrev empty_cache : CoreCache
empty_cache = record {
  branches = λ id. none;
  products = λ branch_id id. none;
  rejecting = λ id. false;
  restaurants = λ id. false;
}

-- A price changes and another branch is updated.
abbrev later_events : List CoreEvent
later_events =
    product_price_changed record { branch_id = 5; product_id = 1; new_price = 9 }
    ∷ branch_updated 6
    ∷ []

abbrev rejecting_answers : Answers
rejecting_answers = record place_answers {
  is_rejecting =
      is_branch_rejecting_orders 5
        (handle_events later_events (handle_event (branch_deactivated 5) empty_cache));
}

place_order-deactivated_example :
    place_order env_1 env_1 env_2 place_config rejecting_answers customer_actor place_request none
      world_1
    ≡ (err branch_not_accepting_orders, world_1)
place_order-deactivated_example =
    place_order-deactivated env_1 env_1 env_2 place_config rejecting_answers customer_actor
      place_request none world_1 _ empty_cache later_events (λ e. absurd (omega arith))
      (tt, ((λ e. absurd (omega arith)), tt)) refl refl
