-- ===== src/Assignment/Claims/Exclusive.antt =====
-- An order has one taker: what a claim does, when it is refused, and why a second one cannot succeed.
use quickbite_order_service.Prelude.{
  ℕ, ◌≡◌, ◌≢◌, refl, ◌⊎◌, true, false, not, ◌||◌, none, some, List, [], ◌∷◌, ◌==◌, if◌then◌else◌,
  arith, sym, Bool-cases, Option-cases, inl, inr, ap, ◌∙◌,
}
use quickbite_order_service.Prelude.Text.{Text, text_eq, text_eq_sound}
use quickbite_order_service.Prelude.Rows.{
  find_where, select_where, update_where, find_where-update_gone,
}
use quickbite_order_service.Order.Entity.{OrderEntity}
use quickbite_order_service.Order.Repo.{
  claimed_by, contains_id, has_public_id, find_order_by_public_id, claim_ready_order_for_agent,
}
use quickbite_order_service.Assignment.Offers.{put}
use quickbite_order_service.Assignment.Claims.{
  truthy_offer, set_claim, unlock_on_error, lock, claim_order, force_claim_order, announce_claim,
  claim, admin_assign,
}
use quickbite_order_service.Store.{
  Env, World, ok, err, AppError, transaction, or_throw, throw_if, infrastructure,
  offer_not_found_or_expired, not_in_candidate_list, order_already_claimed,
  order_not_in_ready_state,
}
use quickbite_order_service.Store.Laws.{steps, transaction-ok, transaction-lost}
use quickbite_order_service.Assignment.Claims.Announce.{
  theirs, is_open, claimed-closed, announced, announce_claim_lem, announce_claim-cut,
}

none_ne_some : {o : OrderEntity} → none ≢ some o
none_ne_some h = cc

-- Why a claim goes through: the agent is among those that the order is offered to, nobody holds the
-- lock, the order waits for an agent, and the transaction goes through.
pub record Claims (env : Env) (public_id : Text) (agent_id : ℕ) (w : World) (order : OrderEntity)
    (ids : List ℕ) : Type 0 where
  pub out : truthy_offer (w.redis.offer public_id) ≡ some ids
  pub named : contains_id ids agent_id ≡ true
  pub unlocked : w.redis.claim public_id ≡ none
  pub waiting : find_where (is_open public_id) w.db.orders ≡ some order
  pub committed : env.is_committed ≡ true

-- A refused claim leaves the tables, the offers and the notices as they were, and the locks too, but
-- for that of its order if giving it back fails.
pub record IsUnclaimed (env : Env) (public_id : Text) (v w : World) : Type 0 where
  pub same_db : v.db ≡ w.db
  pub same_sent : v.sent ≡ w.sent
  pub same_offer : v.redis.offer ≡ w.redis.offer
  pub same_claim :
      (id : Text)
      → (v.redis.claim id ≡ w.redis.claim id)
        ⊎ ((env.is_failing 0 ≡ true) × (text_eq id public_id ≡ true))

open-found :
    (public_id : Text) (os : List OrderEntity) (o : OrderEntity)
    → find_where (is_open public_id) os ≡ some o
    → (p : OrderEntity) × (find_where (has_public_id public_id) os ≡ some p)
open-found public_id [] o h = absurd (ground arith)
open-found public_id (x ∷ os) o h = elim (Bool-cases (has_public_id public_id x)) [
  | inl e ↦ (x, rw e refl)
  | inr e ↦ let r = open-found public_id os o (ground arith) in (r.0, rw e r.1)
]

module _ (env : Env) (public_id : Text) (agent_id : ℕ) (w : World) where
  -- The world while the lock is held.
  abbrev locked : World
  locked = record w { redis = set_claim public_id (some agent_id) w.redis }

  abbrev claimed_orders : List OrderEntity
  claimed_orders = update_where (is_open public_id) (theirs agent_id env.now) w.db.orders

  -- The world after a claim of `order` that was offered to `ids`.
  abbrev pub after_claim : OrderEntity → List ℕ → World
  after_claim order ids =
      announced public_id agent_id (select_where (λ id. not (id == agent_id)) ids)
        (theirs agent_id env.now order)
        (record locked { db = record w.db { orders = claimed_orders } })

  claim_order_lem :
      (order : OrderEntity)
      → find_where (is_open public_id) w.db.orders ≡ some order
      → claim_order env public_id agent_id locked ≡ (
        ok (theirs agent_id env.now order),
        record locked { db = record w.db { orders = claimed_orders } },
      )
  unfolding claim_order claim_ready_order_for_agent find_order_by_public_id claimed_by
  claim_order_lem order h = rw (
    claim_order,
    steps,
    find_order_by_public_id,
    (open-found public_id w.db.orders order h).1,
    or_throw,
    claim_ready_order_for_agent,
    h,
  )

  -- The world once the transaction is committed.
  abbrev pub claimed_world : World
  claimed_world = record locked { db = record w.db { orders = claimed_orders } }

  claim-announces :
      (order : OrderEntity) (ids : List ℕ)
      → Claims env public_id agent_id w order ids
      → claim env public_id agent_id w
        ≡ announce_claim env public_id agent_id
            (select_where (λ id. not (id == agent_id)) ids)
            (theirs agent_id env.now order)
            claimed_world
  unfolding claim lock
  claim-announces order ids c = rw (
    claim,
    steps,
    c.out,
    or_throw,
    throw_if,
    c.named,
    lock,
    c.unlocked,
    transaction-ok env (claim_order env public_id agent_id) locked c.committed
        (claim_order_lem order c.waiting),
    unlock_on_error,
  )

  claim-Claims :
      (order : OrderEntity) (ids : List ℕ)
      → Claims env public_id agent_id w order ids
      → ((env.is_failing 1 || env.is_failing 2 ≡ false)
          × (claim env public_id agent_id w
              ≡ (ok (theirs agent_id env.now order), after_claim order ids)))
        ⊎ ((env.is_failing 1 || env.is_failing 2 ≡ true)
            × ((v : World) × (claim env public_id agent_id w ≡ (err infrastructure, v))
                × (v.db ≡ claimed_world.db)
                × (v.redis.claim ≡ claimed_world.redis.claim)))
  claim-Claims order ids c =
      let losers = select_where (λ id. not (id == agent_id)) ids in
      let o = theirs agent_id env.now order in
      elim (Bool-cases (env.is_failing 1 || env.is_failing 2)) [
        | inr f ↦ inl (
          f,
          claim-announces order ids c
              ∙ announce_claim_lem env public_id agent_id losers o claimed_world (ground arith)
                  (ground arith),
        )
        | inl f ↦
            let (v, cut, db, locks) =
              announce_claim-cut env public_id agent_id losers o claimed_world f in
            inr (f, (v, claim-announces order ids c ∙ cut, db, locks))
      ]

  -- The tables of a claim that was due, whatever became of its announcement.
  claim-orders :
      (order : OrderEntity) (ids : List ℕ)
      → Claims env public_id agent_id w order ids
      → (claim env public_id agent_id w).1.db.orders ≡ claimed_orders
  claim-orders order ids c = elim (claim-Claims order ids c) [
    | inl (f, done) ↦ ap (λ r. r.1.db.orders) done
    | inr (f, (v, cut, db, locks)) ↦ ap (λ r. r.1.db.orders) cut ∙ ap (λ d. d.orders) db
  ]

  unlocked-same :
      w.redis.claim public_id ≡ none
      → (id : Text)
      → put public_id none (put public_id (some agent_id) w.redis.claim) id ≡ w.redis.claim id
  unlocked-same h id = elim (Bool-cases (text_eq id public_id)) [
    | inl e ↦ rw e (sym h ∙ ap w.redis.claim (sym (text_eq_sound id public_id e)))
    | inr e ↦ rw e
  ]

  -- The world after a claim that took the lock and failed, and what it answers then.
  abbrev given_up : World
  given_up = if env.is_failing 0 then locked else record w {
    redis = set_claim public_id none (set_claim public_id (some agent_id) w.redis);
  }

  abbrev blamed : AppError → AppError
  blamed e = if env.is_failing 0 then infrastructure else e

  given_up-IsUnclaimed : w.redis.claim public_id ≡ none → IsUnclaimed env public_id given_up w
  given_up-IsUnclaimed h = elim (Bool-cases (env.is_failing 0)) [
    | inr f ↦ rw f record {
      same_db = refl;
      same_sent = refl;
      same_offer = refl;
      same_claim = λ id. inl (unlocked-same h id);
    }
    | inl f ↦ rw f record {
      same_db = refl;
      same_sent = refl;
      same_offer = refl;
      same_claim = λ id. elim (Bool-cases (text_eq id public_id)) [
        | inl e ↦ inr (f, e)
        | inr e ↦ inl (rw e)
      ];
    }
  ]

  untouched : IsUnclaimed env public_id w w
  untouched = record {
    same_db = refl;
    same_sent = refl;
    same_offer = refl;
    same_claim = λ id. inl refl;
  }

  fails :
      find_where (is_open public_id) w.db.orders ≡ none
      → transaction env (claim_order env public_id agent_id) locked
        ≡ (err order_not_in_ready_state, locked)
  unfolding transaction claim_order claim_ready_order_for_agent find_order_by_public_id
  fails h = elim (Option-cases (find_where (has_public_id public_id) w.db.orders)) [
    | inl missing ↦ rw (transaction, claim_order, steps, find_order_by_public_id, missing, or_throw)
    | inr (o, found) ↦ rw (
      transaction, claim_order, steps, find_order_by_public_id, found, or_throw,
      claim_ready_order_for_agent, h,
    )
  ]

  loses :
      (order : OrderEntity)
      → find_where (is_open public_id) w.db.orders ≡ some order
      → env.is_committed ≡ false
      → transaction env (claim_order env public_id agent_id) locked ≡ (err infrastructure, locked)
  loses order h c =
      transaction-lost env (claim_order env public_id agent_id) locked c (claim_order_lem order h)

  gives_up :
      (ids : List ℕ) {e : AppError}
      → truthy_offer (w.redis.offer public_id) ≡ some ids
      → contains_id ids agent_id ≡ true
      → w.redis.claim public_id ≡ none
      → transaction env (claim_order env public_id agent_id) locked ≡ (err e, locked)
      → claim env public_id agent_id w ≡ (err (blamed e), given_up)
  unfolding claim lock
  gives_up ids o n free h = elim (Bool-cases (env.is_failing 0)) [
    | inl f ↦ rw (claim, steps, o, or_throw, throw_if, n, lock, free, h, unlock_on_error, f)
    | inr f ↦ rw (claim, steps, o, or_throw, throw_if, n, lock, free, h, unlock_on_error, f)
  ]

  -- The tables take a claim whole or not at all: either it was due, and no call after the commit
  -- fails, and the order is the agent's, with the agent busy, the others told and the lock held; or it
  -- was due, and one of these calls fails, and then the call throws, yet the order is the agent's in
  -- the tables and the lock is held; or the call throws, and the tables, the offers, the notices and
  -- the locks are as before, but for the order's lock if giving it back fails.
  pub claim_atomic :
      ((order : OrderEntity) × (ids : List ℕ) × Claims env public_id agent_id w order ids
        × (((env.is_failing 1 || env.is_failing 2 ≡ false)
              × (claim env public_id agent_id w
                  ≡ (ok (theirs agent_id env.now order), after_claim order ids)))
            ⊎ ((env.is_failing 1 || env.is_failing 2 ≡ true)
                × ((v : World) × (claim env public_id agent_id w ≡ (err infrastructure, v))
                    × (v.db ≡ claimed_world.db)
                    × (v.redis.claim ≡ claimed_world.redis.claim)))))
      ⊎ ((e : AppError) × (v : World) × (claim env public_id agent_id w ≡ (err e, v))
          × IsUnclaimed env public_id v w)
  unfolding claim lock
  claim_atomic = elim (Option-cases (truthy_offer (w.redis.offer public_id))) [
    | inl o ↦ inr (offer_not_found_or_expired, w, rw (claim, steps, o, or_throw), untouched)
    | inr (ids, o) ↦ elim (Bool-cases (contains_id ids agent_id)) [
      | inr n ↦
          inr (not_in_candidate_list, w, rw (claim, steps, o, or_throw, throw_if, n), untouched)
      | inl n ↦ elim (Option-cases (w.redis.claim public_id)) [
        | inr (holder, l) ↦ inr (
          order_already_claimed,
          w,
          rw (claim, steps, o, or_throw, throw_if, n, lock, l),
          untouched,
        )
        | inl l ↦ elim (Option-cases (find_where (is_open public_id) w.db.orders)) [
          | inl shut ↦ inr (
            blamed order_not_in_ready_state,
            given_up,
            gives_up ids o n l (fails shut),
            given_up-IsUnclaimed l,
          )
          | inr (order, h) ↦ elim (Bool-cases env.is_committed) [
            | inr c ↦ inr (
              blamed infrastructure,
              given_up,
              gives_up ids o n l (loses order h c),
              given_up-IsUnclaimed l,
            )
            | inl c ↦
                let due : Claims env public_id agent_id w order ids = record {
                  out = o;
                  named = n;
                  unlocked = l;
                  waiting = h;
                  committed = c;
                } in
                inl (order, ids, due, claim-Claims order ids due)
          ]
        ]
      ]
    ]
  ]

shut_claim :
    (env : Env) (public_id : Text) (agent_id : ℕ) (v : World)
    → find_where (is_open public_id) v.db.orders ≡ none
    → (e : AppError) × ((claim env public_id agent_id v).0 ≡ err e)
shut_claim env public_id agent_id v shut = elim (claim_atomic env public_id agent_id v) [
  | inl (order, ids, due, _) ↦ absurd (none_ne_some (sym shut ∙ due.waiting))
  | inr (e, u, failed, _) ↦ (e, ap (λ r. r.0) failed)
]

shut_assign :
    (env : Env) (public_id : Text) (agent_id : ℕ) (v : World)
    → find_where (is_open public_id) v.db.orders ≡ none
    → (e : AppError) × ((admin_assign env public_id agent_id v).0 ≡ err e)
unfolding admin_assign lock transaction force_claim_order claim_ready_order_for_agent
shut_assign env public_id agent_id v shut = elim (Option-cases (v.redis.claim public_id)) [
  | inr (holder, l) ↦ (order_already_claimed, ground arith)
  | inl l ↦ (if env.is_failing 0 then infrastructure else order_not_in_ready_state, ground arith)
]

-- Once an agent has claimed an order, nobody else gets it while the orders stay as they are: every
-- later acceptance, and every assignment by an administrator, throws, even when the lock has expired
-- and new offers are out.
pub claim-exclusive :
    (env later : Env) (public_id : Text) (agent_id other : ℕ) (w v : World) (order : OrderEntity)
    (ids : List ℕ)
    → Claims env public_id agent_id w order ids
    → v.db.orders ≡ (claim env public_id agent_id w).1.db.orders
    → ((e : AppError) × ((claim later public_id other v).0 ≡ err e))
      × ((e : AppError) × ((admin_assign later public_id other v).0 ≡ err e))
claim-exclusive env later public_id agent_id other w v order ids due same =
    let after = claim-orders env public_id agent_id w order ids due in
    let shut : find_where (is_open public_id) v.db.orders ≡ none =
      ap (λ os. find_where (is_open public_id) os) (same ∙ after)
      ∙ find_where-update_gone (is_open public_id) (theirs agent_id env.now) w.db.orders
          (claimed-closed public_id agent_id env.now) in
    (shut_claim later public_id other v shut, shut_assign later public_id other v shut)
