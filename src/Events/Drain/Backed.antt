-- ===== src/Events/Drain/Backed.antt =====
-- No event is lost: a row is marked as dispatched only when the broker has its message, whatever
-- fails in between.
use mathlib.Core.Path.{subst}
use quickbite_order_service.Prelude.{
  ℕ, ◌+◌, ◌++◌, ◌≡◌, refl, sym, ◌∙◌, ap, Bool, true, false, none, some, List, [], ◌∷◌, ◌==◌, any,
  All, is_some, arith, inl, inr, Bool-cases, Option-cases, ==_iff,
}
use quickbite_order_service.Prelude.Text.{Text, text_eq, text_eq_refl}
use quickbite_order_service.Prelude.Rows.{select_where, update_where}
use quickbite_order_service.Prelude.Sort.{
  order_by, All-weaken, All-take, All-select_where, All-order_by,
}
use quickbite_order_service.Events.Entity.{OutboxRow}
use quickbite_order_service.Events.Drain.Calm.{publish-taken, publish-refused}
use quickbite_order_service.Events.Drain.{
  Message, DrainEnv, Drain, describe_error, is_row, is_undispatched, claim_batch, dispatched_row,
  failed_row, counted, mark_dispatched, mark_failed, message_of, publish, publish_row, drain_rows,
  marked, after_publish, drain_outbox_for_region, end_drain,
}

abbrev is_published : Text → List Message → Bool
is_published event_id log = any (λ m. text_eq m.envelope.event_id event_id) log

-- Ids determine the events, and the broker has the message of a row that is dispatched.
pub record IsBackedRow (event_of : ℕ → Text) (log : List Message) (row : OutboxRow) : Type 0 where
  pub event : row.event_id ≡ event_of row.id
  pub backed : is_some row.dispatched_at ≡ true → is_published row.event_id log ≡ true

abbrev pub IsBacked : (ℕ → Text) → Drain → Type 0
IsBacked event_of d = All (IsBackedRow event_of d.published) d.outbox

is_published-append :
    (event_id : Text) (log more : List Message)
    → is_published event_id log ≡ true
    → is_published event_id (log ++ more) ≡ true
is_published-append event_id [] more h = cc
is_published-append event_id (m ∷ log) more h =
    ground (arith, is_published-append event_id log more)

is_published-last :
    (event_id : Text) (log : List Message) (m : Message)
    → m.envelope.event_id ≡ event_id
    → is_published event_id (log ++ m ∷ []) ≡ true
is_published-last event_id [] m h = ground (arith, text_eq_refl event_id)
is_published-last event_id (x ∷ log) m h = ground (arith, is_published-last event_id log m)

marked-same : (env : DrainEnv) (p : Bool × Drain) → (marked env p).1 ≡ p.1
marked-same env (true, d) = refl
marked-same env (false, d) = refl

module _ (event_of : ℕ → Text) where
  -- More messages are no harm.
  IsBacked-append :
      (log more : List Message) (rows : List OutboxRow)
      → All (IsBackedRow event_of log) rows
      → All (IsBackedRow event_of (log ++ more)) rows
  IsBacked-append log more rows h =
      All-weaken (IsBackedRow event_of log) (IsBackedRow event_of (log ++ more))
        (λ r k. record {
          event = k.event;
          backed = λ e. is_published-append r.event_id log more (k.backed e);
        })
        rows h

  IsBacked-failed :
      (log : List Message) (id : ℕ) (error : Text) (rows : List OutboxRow)
      → All (IsBackedRow event_of log) rows
      → All (IsBackedRow event_of log) (update_where (is_row id) (failed_row error) rows)
  IsBacked-failed log id error [] h = tt
  IsBacked-failed log id error (r ∷ rows) (k, t) =
      let rest = IsBacked-failed log id error rows t in
      elim (Bool-cases (r.id == id)) [
        | inl e ↦ rw e (record { event = k.event; backed = k.backed }, rest)
        | inr e ↦ rw e (k, rest)
      ]

  -- A row may be marked as soon as its event is with the broker.
  IsBacked-dispatched :
      (now : ℕ) (log : List Message) (id : ℕ) (rows : List OutboxRow)
      → is_published (event_of id) log ≡ true
      → All (IsBackedRow event_of log) rows
      → All (IsBackedRow event_of log) (update_where (is_row id) (dispatched_row now) rows)
  IsBacked-dispatched now log id [] p h = tt
  IsBacked-dispatched now log id (r ∷ rows) p (k, t) =
      let rest = IsBacked-dispatched now log id rows p t in
      elim (Bool-cases (r.id == id)) [
        | inl e ↦
            let same : r.event_id ≡ event_of id = k.event ∙ ap event_of ((==_iff r.id id).0 e) in
            rw e (record { event = k.event; backed = λ _. rw same p }, rest)
        | inr e ↦ rw e (k, rest)
      ]

  module _ (env : DrainEnv) (region : Text) where
    mark_failed-IsBacked :
        (id : ℕ) (error : Text) (d : Drain)
        → IsBacked event_of d
        → IsBacked event_of (mark_failed env id error d).1
    unfolding mark_failed
    mark_failed-IsBacked id error d h = elim (Bool-cases (env.is_failing d.statements)) [
      | inl e ↦ rw e h
      | inr e ↦ rw e (IsBacked-failed d.published id error d.outbox h)
    ]

    mark_dispatched-IsBacked :
        (id : ℕ) (d : Drain)
        → is_published (event_of id) d.published ≡ true
        → IsBacked event_of d
        → IsBacked event_of (mark_dispatched env id d).1
    unfolding mark_dispatched
    mark_dispatched-IsBacked id d p h = elim (Bool-cases (env.is_failing d.statements)) [
      | inl e ↦ rw e h
      | inr e ↦ rw e (IsBacked-dispatched env.now d.published id d.outbox p h)
    ]

    publish_row-IsBacked :
        (row : OutboxRow) (d : Drain)
        → row.event_id ≡ event_of row.id
        → IsBacked event_of d
        → IsBacked event_of (publish_row env region row d).1
    unfolding publish_row publish
    publish_row-IsBacked row d same h = elim (Option-cases (env.publish_error d.tries)) [
      | inl e ↦
          let m = message_of env region row in
          let d' : Drain = record d { published = d.published ++ m ∷ []; tries = d.tries + 1 } in
          subst (λ p. IsBacked event_of (after_publish env row p).1) (sym (publish-taken env m d e))
            (rw (marked-same env (mark_dispatched env row.id d')) (
              mark_dispatched-IsBacked row.id d'
                (is_published-last (event_of row.id) d.published m same)
                (IsBacked-append d.published (m ∷ []) d.outbox h)))
      | inr (x, e) ↦ rw e h
    ]

    drain_rows-IsBacked :
        (rows : List OutboxRow) (d : Drain)
        → All (λ r. r.event_id ≡ event_of r.id) rows
        → IsBacked event_of d
        → IsBacked event_of (drain_rows env region rows d).1
    unfolding drain_rows
    drain_rows-IsBacked [] d same h = h
    drain_rows-IsBacked (row ∷ rows) d (e, same) h =
        let end = publish_row env region row d in
        let k = publish_row-IsBacked row d e h in
        elim end.0
          as (λ o.
            IsBacked event_of
              (elim o as (λ x. Bool × Drain) [
                | none ↦ drain_rows env region rows end.1
                | some x ↦ mark_failed env row.id (describe_error x) end.1
              ]).1) [
                | none ↦ drain_rows-IsBacked rows end.1 same k
                | some x ↦ mark_failed-IsBacked row.id (describe_error x) end.1 k
              ]

    claim_batch-events :
        (rows : List OutboxRow)
        → All (λ r. r.event_id ≡ event_of r.id) rows
        → All (λ r. r.event_id ≡ event_of r.id) (claim_batch env rows)
    unfolding claim_batch
    claim_batch-events rows h =
        let P : OutboxRow → Type 0 = λ r. r.event_id ≡ event_of r.id in
        let free = select_where (is_undispatched env) rows in
        All-take P env.batch_size (order_by (λ r. r.id) free) (
          All-order_by (λ r. r.id) P free
            (All-weaken (λ r. P r × (is_undispatched env r ≡ true)) P (λ r k. k.0) free
              (All-select_where P (is_undispatched env) rows h)))

    end_drain-IsBacked :
        (before : Drain) (end : Bool × Drain)
        → IsBacked event_of end.1
        → All (IsBackedRow event_of end.1.published) before.outbox
        → IsBacked event_of (end_drain env before.outbox end).1
    end_drain-IsBacked before (true, d) h old = elim (Bool-cases (env.is_failing d.statements)) [
      | inl e ↦ rw e old
      | inr e ↦ rw e h
    ]
    end_drain-IsBacked before (false, d) h old = old

-- The broker has every event that it had.
abbrev HasGrown : Drain → Drain → Type 0
HasGrown d d' =
    (event_id : Text)
    → is_published event_id d.published ≡ true
    → is_published event_id d'.published ≡ true

module _ (env : DrainEnv) (region : Text) where
  mark_failed-log :
      (id : ℕ) (error : Text) (d : Drain) → (mark_failed env id error d).1.published ≡ d.published
  unfolding mark_failed
  mark_failed-log id error d = ground arith

  mark_dispatched-log : (id : ℕ) (d : Drain) → (mark_dispatched env id d).1.published ≡ d.published
  unfolding mark_dispatched
  mark_dispatched-log id d = ground arith

  publish_row-HasGrown : (row : OutboxRow) (d : Drain) → HasGrown d (publish_row env region row d).1
  unfolding publish_row
  publish_row-HasGrown row d event_id h = elim (Option-cases (env.publish_error d.tries)) [
    | inl e ↦
        let m = message_of env region row in
        let d' : Drain = record d { published = d.published ++ m ∷ []; tries = d.tries + 1 } in
        subst (λ p. is_published event_id (after_publish env row p).1.published ≡ true)
          (sym (publish-taken env m d e))
          (rw (marked-same env (mark_dispatched env row.id d'), mark_dispatched-log row.id d')
            (is_published-append event_id d.published (m ∷ []) h))
    | inr (x, e) ↦
        subst (λ p. is_published event_id (after_publish env row p).1.published ≡ true)
          (sym (publish-refused env (message_of env region row) d x e)) h
  ]

  drain_rows-HasGrown :
      (rows : List OutboxRow) (d : Drain) → HasGrown d (drain_rows env region rows d).1
  unfolding drain_rows
  drain_rows-HasGrown [] d event_id h = h
  drain_rows-HasGrown (row ∷ rows) d event_id h =
      let end = publish_row env region row d in
      let k = publish_row-HasGrown row d event_id h in
      elim end.0
        as (λ o.
          is_published event_id
            (elim o as (λ x. Bool × Drain) [
              | none ↦ drain_rows env region rows end.1
              | some x ↦ mark_failed env row.id (describe_error x) end.1
            ]).1.published
          ≡ true) [
            | none ↦ drain_rows-HasGrown rows end.1 event_id k
            | some x ↦ rw (mark_failed-log row.id (describe_error x) end.1) k
          ]

  -- Where the ids of the outbox determine its events, and the broker has the message of every row that
  -- is marked as dispatched, so it is after a drain, whether it is carried through, stopped at a
  -- message that the broker refuses, or rolled back because a statement or the commit failed.
  pub drain_outbox_for_region-IsBacked :
      (event_of : ℕ → Text) (d : Drain)
      → IsBacked event_of d
      → IsBacked event_of (drain_outbox_for_region env region d).1
  unfolding drain_outbox_for_region
  drain_outbox_for_region-IsBacked event_of d h =
      let batch = claim_batch env d.outbox in
      let events = claim_batch-events event_of env region d.outbox (
        All-weaken (IsBackedRow event_of d.published) (λ r. r.event_id ≡ event_of r.id)
          (λ r k. k.event) d.outbox h) in
      let end = drain_rows env region batch (counted d) in
      let old =
        All-weaken (IsBackedRow event_of d.published) (IsBackedRow event_of end.1.published)
          (λ r k. record {
            event = k.event;
            backed = λ e. drain_rows-HasGrown batch (counted d) r.event_id (k.backed e);
          })
          d.outbox h in
      elim (Bool-cases (env.is_failing d.statements)) [
        | inl e ↦ rw e h
        | inr e ↦ rw e (
            end_drain-IsBacked event_of env region d end
              (drain_rows-IsBacked event_of env region batch (counted d) events h) old)
      ]
