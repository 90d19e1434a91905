-- ===== src/Agent/Settlement/Effect.antt =====
-- When a settlement is carried out, and what follows its commit.
use quickbite_order_service.Prelude.{
  ℕ, ◌≡◌, refl, true, false, Option, none, some, [], ◌∷◌, ◌++◌, arith, Option-cases, ◌⊎◌, inl, inr,
  ◌∙◌, Bool-cases, ◌||◌, ap,
}
use quickbite_order_service.Prelude.Text.{Text}
use quickbite_order_service.Prelude.Rows.{find_where}
use quickbite_order_service.Order.Entity.{OrderEntity}
use quickbite_order_service.Order.Access.{is_number}
use quickbite_order_service.Order.Repo.{has_public_id, find_order_by_public_id}
use quickbite_order_service.Agent.Settlement.{
  share_of, bps_or_zero, settle, drop_claim, settle_delivered,
}
use quickbite_order_service.Agent.Presence.{clear_busy, set_at}
use quickbite_order_service.Store.{
  Env, World, ok, err, AppError, order_not_found, not_your_task, infrastructure, or_throw, throw_if,
  customer_room, branch_room, status_changed, Action, attempt, modify_redis, emit, pure, ◌>>◌,
}
use quickbite_order_service.Store.Laws.{steps, transaction-ok, transaction-lost}
use quickbite_order_service.Agent.Settlement.Tables.{settled, tables_after, settle_lem}

-- Why a settlement is carried out: the order is there, the agent holds it, and the transaction goes
-- through. Its status is not asked for.
pub record Settles (env : Env) (public_id : Text) (agent_id : ℕ) (w : World) (order : OrderEntity)
    : Type 0 where
  pub found : find_where (has_public_id public_id) w.db.orders ≡ some order
  pub held : order.delivery_agent_id ≡ some agent_id
  pub committed : env.is_committed ≡ true

is_number_eq : (o : Option ℕ) (n : ℕ) → is_number o n ≡ true → o ≡ some n
is_number_eq none n h = cc
is_number_eq (some m) n h = ground arith

module _ (env : Env) (share_bps : ℕ) (commission_bps : Option ℕ) (public_id : Text) (agent_id : ℕ)
    (region : Text) (w : World) where
  abbrev pub fee_of : OrderEntity → ℕ
  fee_of order = share_of order.subtotal (bps_or_zero commission_bps)

  -- The world after a settlement of `order`.
  abbrev pub after_settlement : OrderEntity → World
  after_settlement order =
      let u = settled env (fee_of order) order in
      record w {
        db =
            tables_after env public_id region order agent_id (fee_of order)
              (share_of order.delivery_fee share_bps) w.db;
        redis = drop_claim public_id (record w.redis { busy = set_at agent_id false w.redis.busy });
        sent =
            (w.sent ++ (customer_room u.customer_id, status_changed u) ∷ [])
            ++ (branch_room u.branch_id, status_changed u) ∷ [];
      }

  -- The world once the transaction is committed.
  abbrev pub committed_world : OrderEntity → World
  committed_world order = record w { db = (after_settlement order).db }

  abbrev pub settled_here : OrderEntity → OrderEntity
  settled_here order = settled env (fee_of order) order

  -- What follows the commit.
  abbrev pub after_commit : OrderEntity → Action OrderEntity
  after_commit u = do
    attempt env 0 (clear_busy agent_id)
    attempt env 1 (modify_redis (drop_claim public_id))
    emit (customer_room u.customer_id) (status_changed u)
    emit (branch_room u.branch_id) (status_changed u)
    pure u

  settle_delivered-commits :
      (order : OrderEntity)
      → Settles env public_id agent_id w order
      → settle_delivered env share_bps commission_bps public_id agent_id region w
        ≡ after_commit (settled_here order) (committed_world order)
  unfolding settle_delivered find_order_by_public_id
  settle_delivered-commits order s =
      let mine : is_number order.delivery_agent_id agent_id ≡ true = rw s.held (ground arith) in
      rw (
        settle_delivered,
        steps,
        find_order_by_public_id,
        s.found,
        or_throw,
        throw_if,
        mine,
        transaction-ok env
            (settle env public_id region order agent_id (fee_of order)
              (share_of order.delivery_fee share_bps))
            w s.committed
            (settle_lem env public_id region order agent_id (fee_of order)
              (share_of order.delivery_fee share_bps) w s.found),
      )

  after_commit-ok :
      (order : OrderEntity)
      → env.is_failing 0 || env.is_failing 1 ≡ false
      → after_commit (settled_here order) (committed_world order)
        ≡ (ok (settled_here order), after_settlement order)
  unfolding clear_busy
  after_commit-ok order f =
      let f0 : env.is_failing 0 ≡ false = ground arith in
      let f1 : env.is_failing 1 ≡ false = ground arith in
      rw (after_commit, attempt, f0, steps, attempt, f1)

  after_commit-cut :
      (order : OrderEntity)
      → env.is_failing 0 || env.is_failing 1 ≡ true
      → (v : World) × (after_commit (settled_here order) (committed_world order)
          ≡ (err infrastructure, v))
        × (v.db ≡ (after_settlement order).db)
        × (v.sent ≡ w.sent)
  unfolding clear_busy
  after_commit-cut order f = elim (Bool-cases (env.is_failing 0)) [
    | inl f0 ↦ (committed_world order, rw (after_commit, attempt, f0, steps), refl, refl)
    | inr f0 ↦
        let f1 : env.is_failing 1 ≡ true = ground arith in
        (
          (clear_busy agent_id (committed_world order)).1,
          rw (after_commit, attempt, f0, steps, attempt, f1),
          refl,
          refl,
        )
  ]

  settle_delivered_lem :
      (order : OrderEntity)
      → Settles env public_id agent_id w order
      → ((env.is_failing 0 || env.is_failing 1 ≡ false)
          × (settle_delivered env share_bps commission_bps public_id agent_id region w
              ≡ (ok (settled_here order), after_settlement order)))
        ⊎ ((env.is_failing 0 || env.is_failing 1 ≡ true)
            × ((v : World) × (settle_delivered env share_bps commission_bps public_id agent_id
                    region w
                  ≡ (err infrastructure, v))
                × (v.db ≡ (after_settlement order).db)
                × (v.sent ≡ w.sent)))
  settle_delivered_lem order s = elim (Bool-cases (env.is_failing 0 || env.is_failing 1)) [
    | inr f ↦ inl (f, settle_delivered-commits order s ∙ after_commit-ok order f)
    | inl f ↦
        let (v, cut, db, sent) = after_commit-cut order f in
        inr (f, (v, settle_delivered-commits order s ∙ cut, db, sent))
  ]

  -- The tables of a settlement, whatever became of the calls after its commit.
  pub settle_delivered-db :
      (order : OrderEntity)
      → Settles env public_id agent_id w order
      → (settle_delivered env share_bps commission_bps public_id agent_id region w).1.db
        ≡ (after_settlement order).db
  settle_delivered-db order s = elim (settle_delivered_lem order s) [
    | inl (f, done) ↦ ap (λ r. r.1.db) done
    | inr (f, (v, cut, db, sent)) ↦ ap (λ r. r.1.db) cut ∙ db
  ]

  not_found :
      find_where (has_public_id public_id) w.db.orders ≡ none
      → settle_delivered env share_bps commission_bps public_id agent_id region w
        ≡ (err order_not_found, w)
  unfolding settle_delivered find_order_by_public_id
  not_found h = rw (settle_delivered, steps, find_order_by_public_id, h, or_throw)

  not_held :
      (order : OrderEntity)
      → find_where (has_public_id public_id) w.db.orders ≡ some order
      → is_number order.delivery_agent_id agent_id ≡ false
      → settle_delivered env share_bps commission_bps public_id agent_id region w
        ≡ (err not_your_task, w)
  unfolding settle_delivered find_order_by_public_id
  not_held order found other =
      rw (settle_delivered, steps, find_order_by_public_id, found, or_throw, throw_if, other)

  lost :
      (order : OrderEntity)
      → find_where (has_public_id public_id) w.db.orders ≡ some order
      → is_number order.delivery_agent_id agent_id ≡ true
      → env.is_committed ≡ false
      → settle_delivered env share_bps commission_bps public_id agent_id region w
        ≡ (err infrastructure, w)
  unfolding settle_delivered find_order_by_public_id
  lost order found mine c = rw (
    settle_delivered,
    steps,
    find_order_by_public_id,
    found,
    or_throw,
    throw_if,
    mine,
    transaction-lost env
        (settle env public_id region order agent_id (fee_of order)
          (share_of order.delivery_fee share_bps))
        w c
        (settle_lem env public_id region order agent_id (fee_of order)
          (share_of order.delivery_fee share_bps) w found),
  )

  -- The tables take a settlement whole or not at all: either the order is there, the agent holds it
  -- and the commit goes through, and then the call ends in the settled order and the world of
  -- `after_settlement`, or, if freeing the agent or dropping the lock fails, it throws with the tables
  -- of `after_settlement` and nobody told; or the call throws and the world is the one of before.
  pub settle_delivered_atomic :
      ((order : OrderEntity) × Settles env public_id agent_id w order
        × (((env.is_failing 0 || env.is_failing 1 ≡ false)
              × (settle_delivered env share_bps commission_bps public_id agent_id region w
                  ≡ (ok (settled_here order), after_settlement order)))
            ⊎ ((env.is_failing 0 || env.is_failing 1 ≡ true)
                × ((v : World) × (settle_delivered env share_bps commission_bps public_id agent_id
                        region w
                      ≡ (err infrastructure, v))
                    × (v.db ≡ (after_settlement order).db)
                    × (v.sent ≡ w.sent)))))
      ⊎ ((e : AppError) × (settle_delivered env share_bps commission_bps public_id agent_id region w
            ≡ (err e, w)))
  settle_delivered_atomic = elim (Option-cases (find_where (has_public_id public_id) w.db.orders)) [
    | inl missing ↦ inr (order_not_found, not_found missing)
    | inr (order, found) ↦ elim (Bool-cases (is_number order.delivery_agent_id agent_id)) [
      | inr other ↦ inr (not_your_task, not_held order found other)
      | inl mine ↦ elim (Bool-cases env.is_committed) [
        | inr c ↦ inr (infrastructure, lost order found mine c)
        | inl c ↦
            let s : Settles env public_id agent_id w order = record {
              found = found;
              held = is_number_eq _ _ mine;
              committed = c;
            } in
            inl (order, s, settle_delivered_lem order s)
      ]
    ]
  ]
