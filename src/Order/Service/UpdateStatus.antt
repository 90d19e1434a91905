-- ===== src/Order/Service/UpdateStatus.antt =====
-- What `updateStatus` does to the world, and exactly when it does it.
use mathlib.Core.Path.{subst, sym}
use mathlib.Core.List.{append-nil}
use quickbite_order_service.Prelude.{
  ℕ, ◌≡◌, refl, true, Option, none, some, List, [], ◌∷◌, ◌++◌, arith, Option-cases, inl, inr,
}
use quickbite_order_service.Prelude.Text.{Text}
use quickbite_order_service.Prelude.Rows.{find_where, update_where}
use quickbite_order_service.Order.Enums.{
  OrderStatus, pending_payment, placed, accepted, rejected, preparing, ready, assigned, picked,
  delivered, cancelled, StatusActor,
}
use quickbite_order_service.Order.Entity.{OrderEntity}
use quickbite_order_service.Order.Status.{
  Stamp, TransitionResult, stamped, invalid_status_transition, reason_required,
  cancellation_window_expired, assert_transition,
}
use quickbite_order_service.Order.Status.Rules.{Allowed, stamp_for, assert_transition_iff}
use quickbite_order_service.Order.Repo.{
  has_public_id, with_status, set_stamp, find_order_by_public_id, update_order_status,
}
use quickbite_order_service.Order.Repo.Laws.{found-public_id, update_order_status_lem}
use quickbite_order_service.Order.Access.{ActorContext, resolve_status_actor}
use quickbite_order_service.Order.Service.{
  UpdateOrderStatusRequest, outbox_event_for_status, build_order_transition_payload,
  transition_context, or_refused, insert_transition_event, apply_transition, update_status,
}
use quickbite_order_service.Events.Entity.{
  EventType, order_accepted, order_rejected, order_cancelled, OutboxRow, order_aggregate,
  moved_order,
}
use quickbite_order_service.Events.Outbox.{new_outbox_row, insert_outbox_event}
use quickbite_order_service.Store.Laws.{steps, transaction-ok, Result-cases}
use quickbite_order_service.Store.{
  or_throw, lift, Env, World, ok, err, AppError, transaction, customer_room, branch_room,
  status_changed,
}

-- The order once it is in a status: with the time of its arrival where the status has a column.
unfoldable pub arrived : OrderStatus → ℕ → OrderEntity → OrderEntity
arrived pending_payment now o = record o { status = pending_payment; updated_at = now }
arrived placed now o = record o { status = placed; updated_at = now }
arrived accepted now o = record o { status = accepted; accepted_at = some now; updated_at = now }
arrived rejected now o = record o { status = rejected; rejected_at = some now; updated_at = now }
arrived preparing now o = record o { status = preparing; updated_at = now }
arrived ready now o = record o { status = ready; ready_at = some now; updated_at = now }
arrived assigned now o = record o { status = assigned; assigned_at = some now; updated_at = now }
arrived picked now o = record o { status = picked; picked_at = some now; updated_at = now }
arrived delivered now o = record o { status = delivered; delivered_at = some now; updated_at = now }
arrived cancelled now o = record o { status = cancelled; cancelled_at = some now; updated_at = now }

-- The event that others hear of a status.
unfoldable pub heard : OrderStatus → Option EventType
heard accepted = some order_accepted
heard rejected = some order_rejected
heard cancelled = some order_cancelled
heard pending_payment = none
heard placed = none
heard preparing = none
heard ready = none
heard assigned = none
heard picked = none
heard delivered = none

with_status-arrived : (s : OrderStatus) (now : ℕ) → with_status s (stamp_for s) now ≡ arrived s now
unfolding with_status set_stamp arrived
with_status-arrived pending_payment now = refl
with_status-arrived placed now = refl
with_status-arrived accepted now = refl
with_status-arrived rejected now = refl
with_status-arrived preparing now = refl
with_status-arrived ready now = refl
with_status-arrived assigned now = refl
with_status-arrived picked now = refl
with_status-arrived delivered now = refl
with_status-arrived cancelled now = refl

outbox_event_for_status-heard : (s : OrderStatus) → outbox_event_for_status s ≡ heard s
unfolding outbox_event_for_status heard
outbox_event_for_status-heard pending_payment = refl
outbox_event_for_status-heard placed = refl
outbox_event_for_status-heard accepted = refl
outbox_event_for_status-heard rejected = refl
outbox_event_for_status-heard preparing = refl
outbox_event_for_status-heard ready = refl
outbox_event_for_status-heard assigned = refl
outbox_event_for_status-heard picked = refl
outbox_event_for_status-heard delivered = refl
outbox_event_for_status-heard cancelled = refl

-- The outbox rows that a transition leaves behind: one for a status with an event, else none.
abbrev pub event_rows :
    Env → Option EventType → OrderEntity → Option Text → StatusActor → List OutboxRow
event_rows env none updated reason actor = []
event_rows env (some event_type) updated reason actor =
    new_outbox_row env 0 (record {
      aggregate_type = order_aggregate;
      aggregate_id = updated.public_id;
      event_type = event_type;
      payload = moved_order (record {
        order_id = updated.public_id;
        region = updated.region;
        country_code = updated.country_code;
        restaurant_id = updated.restaurant_id;
        branch_id = updated.branch_id;
        customer_id = updated.customer_id;
        status = updated.status;
        reason = reason;
        actor = actor;
        occurred_at = updated.updated_at;
      });
    })
    ∷ []

-- The order as the transition leaves it.
abbrev pub moved : Env → UpdateOrderStatusRequest → OrderEntity → OrderEntity
moved env body order = arrived body.status env.now order

-- The world after an accepted transition of `order` by `actor`.
abbrev pub after_update :
    Env → Text → UpdateOrderStatusRequest → OrderEntity → StatusActor → World → World
after_update env public_id body order actor w =
    let u = moved env body order in
    record w {
      db = record w.db {
        orders = update_where (has_public_id public_id) (arrived body.status env.now) w.db.orders;
        events_outbox =
            w.db.events_outbox ++ event_rows env (heard body.status) u body.reason actor;
      };
      sent =
          (w.sent ++ (customer_room u.customer_id, status_changed u) ∷ [])
          ++ (branch_room u.branch_id, status_changed u) ∷ [];
    }

insert_transition_event_lem :
    (env : Env) (event : Option EventType) (u : OrderEntity) (reason : Option Text)
    (a : StatusActor) (w : World)
    → insert_transition_event env event u reason a w ≡ (
      ok tt,
      record w {
        db = record w.db { events_outbox = w.db.events_outbox ++ event_rows env event u reason a };
      },
    )
unfolding insert_transition_event insert_outbox_event build_order_transition_payload
insert_transition_event_lem env none u reason a w = rw append-nil
insert_transition_event_lem env (some event) u reason a w = refl

apply_transition_lem :
    (env : Env) (public_id : Text) (body : UpdateOrderStatusRequest) (a : StatusActor)
    (order : OrderEntity) (w : World)
    → find_where (has_public_id public_id) w.db.orders ≡ some order
    → apply_transition env public_id body (stamp_for body.status) a w ≡ (
      ok (moved env body order),
      record w { db = (after_update env public_id body order a w).db },
    )
unfolding apply_transition
apply_transition_lem env public_id body a order w h = rw (
  update_order_status_lem env public_id body.status (stamp_for body.status) order w h,
  apply_transition,
  steps,
  insert_transition_event_lem,
  with_status-arrived body.status env.now,
  outbox_event_for_status-heard body.status,
)

or_refused_ok : (t : TransitionResult) {c : Option Stamp} → or_refused t ≡ ok c → t ≡ stamped c
or_refused_ok (stamped c) h = cc
or_refused_ok invalid_status_transition h = cc
or_refused_ok reason_required h = cc
or_refused_ok cancellation_window_expired h = cc

-- Why the handler accepts: the order is there, the actor counts as `who` for it, the status machine
-- allows the transition, and the transaction is carried through.
pub record Accepts (env : Env) (actor : ActorContext) (public_id : Text)
    (body : UpdateOrderStatusRequest) (w : World) (order : OrderEntity) (who : StatusActor)
    : Type 0 where
  pub found : find_where (has_public_id public_id) w.db.orders ≡ some order
  pub resolved : resolve_status_actor actor order ≡ ok who
  pub allowed : Allowed env.now order.status body.status (transition_context who body.reason order)
  pub committed : env.is_committed ≡ true

module _ (env : Env) (actor : ActorContext) (public_id : Text) (body : UpdateOrderStatusRequest)
    (w : World) where
  carried_out :
      (order : OrderEntity) (who : StatusActor)
      → Accepts env actor public_id body w order who
      → transaction env (apply_transition env order.public_id body (stamp_for body.status) who) w
        ≡ (
          ok (moved env body order),
          record w { db = (after_update env public_id body order who w).db },
        )
  carried_out order who acc =
      subst
        (λ id. transaction env (apply_transition env id body (stamp_for body.status) who) w ≡ (
          ok (moved env body order),
          record w { db = (after_update env public_id body order who w).db },
        ))
        (sym (found-public_id public_id w.db.orders order acc.found))
        (transaction-ok env (apply_transition env public_id body (stamp_for body.status) who) w
          acc.committed (apply_transition_lem env public_id body who order w acc.found))

  pub update_status-Accepts :
      (order : OrderEntity) (who : StatusActor)
      → Accepts env actor public_id body w order who
      → update_status env actor public_id body w
        ≡ (ok (moved env body order), after_update env public_id body order who w)
  unfolding update_status find_order_by_public_id
  update_status-Accepts order who acc =
      let check =
        (assert_transition_iff env.now order.status body.status
            (transition_context who body.reason order) (stamp_for body.status)).1
          (acc.allowed, refl) in
      rw (
        update_status,
        steps,
        find_order_by_public_id,
        acc.found,
        or_throw,
        acc.resolved,
        lift,
        check,
        or_refused,
        carried_out order who acc,
      )

  -- A request is answered with an order only if it was accepted.
  pub update_status_ok :
      {u : OrderEntity}
      → (update_status env actor public_id body w).0 ≡ ok u
      → (order : OrderEntity) × (who : StatusActor) × Accepts env actor public_id body w order who
  unfolding update_status find_order_by_public_id transaction
  update_status_ok h = elim (Option-cases (find_where (has_public_id public_id) w.db.orders)) [
    | inl missing ↦ absurd (ground arith)
    | inr (order, found) ↦ elim (Result-cases (resolve_status_actor actor order)) [
      | inr (e, refused) ↦ absurd (ground arith)
      | inl (who, resolved) ↦
          let ctx = transition_context who body.reason order in
          elim (Result-cases
            (or_refused (assert_transition env.now order.status body.status ctx))) [
              | inr (e, refused) ↦ absurd (ground arith)
              | inl (c, check) ↦ (
                order,
                who,
                record {
                  found = found;
                  resolved = resolved;
                  allowed =
                      ((assert_transition_iff env.now order.status body.status ctx c).0
                        (or_refused_ok _ check)).0;
                  committed = ground arith;
                },
              )
            ]
    ]
  ]

  -- A refused request, or one that fails, changes nothing in the world.
  pub update_status-err :
      {e : AppError}
      → (update_status env actor public_id body w).0 ≡ err e
      → (update_status env actor public_id body w).1 ≡ w
  unfolding update_status find_order_by_public_id apply_transition transaction update_order_status
      insert_transition_event insert_outbox_event
  update_status-err h = ground arith
