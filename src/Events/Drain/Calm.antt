-- ===== src/Events/Drain/Calm.antt =====
-- A drain in which no statement fails, against its description: the rows up to the first that the
-- broker refuses are sent in order and marked at once, and that row is marked as failed.
use mathlib.Core.Path.{subst}
use quickbite_order_service.Prelude.{
  ℕ, ◌+◌, ◌++◌, ◌≡◌, refl, sym, ◌∙◌, ap, Bool, true, false, Option, none, some, List, [], ◌∷◌, ◌==◌,
  map, any, take, not, ◌&&◌, if◌then◌else◌, is_some, arith, inl, inr, Option-cases,
}
use quickbite_order_service.Prelude.Text.{Text}
use quickbite_order_service.Prelude.Rows.{update_where, select_where}
use quickbite_order_service.Prelude.Sort.{order_by, IsAscending, IsAscending-first}
use quickbite_order_service.Events.Entity.{OutboxRow}
use quickbite_order_service.Events.Drain.{
  Thrown, Message, DrainEnv, Drain, describe_error, is_row, claim_batch, dispatched_row, failed_row,
  counted, mark_dispatched, mark_failed, message_of, publish, publish_row, drain_rows,
  drain_outbox_for_region, end_drain,
}

-- The rows that the broker takes, from the k-th message on, until it refuses one.
abbrev pub sent_rows : DrainEnv → ℕ → List OutboxRow → List OutboxRow
sent_rows env k [] = []
sent_rows env k (row ∷ rows) = elim (env.publish_error k) [
  | none ↦ row ∷ sent_rows env (k + 1) rows
  | some e ↦ []
]

-- The table with the row that it refuses, if any, marked as failed.
abbrev pub mark_refused : DrainEnv → ℕ → List OutboxRow → List OutboxRow → List OutboxRow
mark_refused env k [] outbox = outbox
mark_refused env k (row ∷ rows) outbox = elim (env.publish_error k) [
  | none ↦ mark_refused env (k + 1) rows outbox
  | some e ↦
      update_where (λ r. r.id == row.id)
        (λ r. record r {
          attempts = r.attempts + 1;
          last_error = some (take 2000 (describe_error e));
        })
        outbox
]

abbrev is_among : List OutboxRow → OutboxRow → Bool
is_among rows row = any (λ id. row.id == id) (map (λ r. r.id) rows)

abbrev pub mark_sent : ℕ → List OutboxRow → List OutboxRow → List OutboxRow
mark_sent now sent outbox =
    update_where (is_among sent) (λ r. record r { dispatched_at = some now }) outbox

-- The message that a row is due to send.
abbrev pub due_message : DrainEnv → Text → OutboxRow → Message
due_message env region row = record {
  exchange = env.exchange;
  routing_key = row.event_type;
  envelope = record {
    event_id = row.event_id;
    event_type = row.event_type;
    occurred_at = env.now;
    aggregate_type = row.aggregate_type;
    aggregate_id = row.aggregate_id;
    region = region;
    payload = row.payload;
  };
}

-- The batch that is due: of the rows that are not dispatched and that no other drain has locked, those
-- with the lowest ids, as many as a batch has.
abbrev pub due_batch : DrainEnv → List OutboxRow → List OutboxRow
due_batch env outbox = take env.batch_size (
    order_by (λ r. r.id)
      (select_where (λ r. not (is_some r.dispatched_at) && not (env.is_locked r.id)) outbox))

mark_sent-nil : (now : ℕ) (outbox : List OutboxRow) → mark_sent now [] outbox ≡ outbox
mark_sent-nil now [] = refl
mark_sent-nil now (r ∷ rs) = ap (λ t. r ∷ t) (mark_sent-nil now rs)

mark_sent-cons :
    (now : ℕ) (row : OutboxRow) (sent outbox : List OutboxRow)
    → mark_sent now sent (update_where (is_row row.id) (dispatched_row now) outbox)
      ≡ mark_sent now (row ∷ sent) outbox
mark_sent-cons now row sent [] = refl
mark_sent-cons now row sent (r ∷ rs) = ground (arith, mark_sent-cons now row sent rs)

append-cons : {A : Type 0} (xs : List A) (y : A) (zs : List A) → (xs ++ y ∷ []) ++ zs ≡ xs ++ y ∷ zs
append-cons [] y zs = refl
append-cons (x ∷ xs) y zs = ap (λ t. x ∷ t) (append-cons xs y zs)

-- The state after a row that is sent, and after one that is refused.
abbrev sent_state : DrainEnv → Text → OutboxRow → Drain → Drain
sent_state env region row d = record {
  outbox = update_where (is_row row.id) (dispatched_row env.now) d.outbox;
  published = d.published ++ message_of env region row ∷ [];
  statements = d.statements + 1;
  tries = d.tries + 1;
}

abbrev refused_state : Drain → Drain
refused_state d = record d { tries = d.tries + 1 }

pub publish-taken :
    (env : DrainEnv) (message : Message) (d : Drain)
    → env.publish_error d.tries ≡ none
    → publish env message d
      ≡ (none, record d { published = d.published ++ message ∷ []; tries = d.tries + 1 })
unfolding publish
publish-taken env message d e =
    ap
      (λ o. (
        o,
        record d {
          published = if is_some o then d.published else d.published ++ message ∷ [];
          tries = d.tries + 1;
        },
      ))
      e

pub publish-refused :
    (env : DrainEnv) (message : Message) (d : Drain) (x : Thrown)
    → env.publish_error d.tries ≡ some x
    → publish env message d ≡ (some x, refused_state d)
unfolding publish
publish-refused env message d x e =
    ap
      (λ o. (
        o,
        record d {
          published = if is_some o then d.published else d.published ++ message ∷ [];
          tries = d.tries + 1;
        },
      ))
      e

append-nil : {A : Type 0} (xs : List A) → xs ++ [] ≡ xs
append-nil [] = refl
append-nil (x ∷ xs) = ap (λ t. x ∷ t) (append-nil xs)

sent_rows-taken :
    (env : DrainEnv) (k : ℕ) (row : OutboxRow) (rows : List OutboxRow)
    → env.publish_error k ≡ none
    → sent_rows env k (row ∷ rows) ≡ row ∷ sent_rows env (k + 1) rows
sent_rows-taken env k row rows h =
    ap
      (λ o. elim o as (λ x. List OutboxRow) [
        | none ↦ row ∷ sent_rows env (k + 1) rows
        | some e ↦ []
      ])
      h

mark_refused-taken :
    (env : DrainEnv) (k : ℕ) (row : OutboxRow) (rows outbox : List OutboxRow)
    → env.publish_error k ≡ none
    → mark_refused env k (row ∷ rows) outbox ≡ mark_refused env (k + 1) rows outbox
mark_refused-taken env k row rows outbox h =
    ap
      (λ o. elim o as (λ x. List OutboxRow) [
        | none ↦ mark_refused env (k + 1) rows outbox
        | some e ↦ update_where (is_row row.id) (failed_row (describe_error e)) outbox
      ])
      h

sent_rows-refused :
    (env : DrainEnv) (k : ℕ) (row : OutboxRow) (rows : List OutboxRow) (x : Thrown)
    → env.publish_error k ≡ some x
    → sent_rows env k (row ∷ rows) ≡ []
sent_rows-refused env k row rows x h =
    ap
      (λ o. elim o as (λ x. List OutboxRow) [
        | none ↦ row ∷ sent_rows env (k + 1) rows
        | some e ↦ []
      ])
      h

mark_refused-refused :
    (env : DrainEnv) (k : ℕ) (row : OutboxRow) (rows outbox : List OutboxRow) (x : Thrown)
    → env.publish_error k ≡ some x
    → mark_refused env k (row ∷ rows) outbox
      ≡ update_where (is_row row.id) (failed_row (describe_error x)) outbox
mark_refused-refused env k row rows outbox x h =
    ap
      (λ o. elim o as (λ x. List OutboxRow) [
        | none ↦ mark_refused env (k + 1) rows outbox
        | some e ↦ update_where (is_row row.id) (failed_row (describe_error e)) outbox
      ])
      h

record IsLoop (env : DrainEnv) (region : Text) (rows : List OutboxRow) (d : Drain)
    (end : Bool × Drain) : Type 0 where
  no_error : end.0 ≡ true
  table :
      end.1.outbox
      ≡ mark_refused env d.tries rows (mark_sent env.now (sent_rows env d.tries rows) d.outbox)
  log : end.1.published ≡ d.published ++ map (message_of env region) (sent_rows env d.tries rows)

module _ (env : DrainEnv) (region : Text) (succeeds : (k : ℕ) → env.is_failing k ≡ false) where
  publish_row-sent :
      (row : OutboxRow) (d : Drain)
      → env.publish_error d.tries ≡ none
      → publish_row env region row d ≡ (none, sent_state env region row d)
  unfolding publish_row mark_dispatched
  publish_row-sent row d e =
      rw
        (
          publish_row,
          publish-taken env (message_of env region row) d e,
          mark_dispatched,
          succeeds d.statements,
        )
        refl

  publish_row-refused :
      (row : OutboxRow) (d : Drain) (x : Thrown)
      → env.publish_error d.tries ≡ some x
      → publish_row env region row d ≡ (some x, refused_state d)
  unfolding publish_row
  publish_row-refused row d x e =
      rw (publish_row, publish-refused env (message_of env region row) d x e) refl

  mark_failed-done :
      (id : ℕ) (error : Text) (d : Drain)
      → mark_failed env id error d ≡ (
        true,
        record d {
          outbox = update_where (is_row id) (failed_row error) d.outbox;
          statements = d.statements + 1;
        },
      )
  unfolding mark_failed
  mark_failed-done id error d = rw (mark_failed, succeeds d.statements) refl

  -- The turn of the loop after a row.
  abbrev next_turn : OutboxRow → List OutboxRow → Option Thrown × Drain → Bool × Drain
  next_turn row rows end = elim end.0 [
    | none ↦ drain_rows env region rows end.1
    | some e ↦ mark_failed env row.id (describe_error e) end.1
  ]

  drain_rows-IsLoop :
      (rows : List OutboxRow) (d : Drain) → IsLoop env region rows d (drain_rows env region rows d)
  unfolding drain_rows
  drain_rows-IsLoop [] d = record {
    no_error = refl;
    table = sym (mark_sent-nil env.now d.outbox);
    log = sym (append-nil d.published);
  }
  drain_rows-IsLoop (row ∷ rows) d = elim (Option-cases (env.publish_error d.tries)) [
    | inl e ↦
        let rest = drain_rows-IsLoop rows (sent_state env region row d) in
        subst (λ end. IsLoop env region (row ∷ rows) d (next_turn row rows end))
          (sym (publish_row-sent row d e))
          record {
            no_error = rest.no_error;
            table =
                rest.table
                ∙ ap (mark_refused env (d.tries + 1) rows) (
                    mark_sent-cons env.now row (sent_rows env (d.tries + 1) rows) d.outbox
                    ∙ ap (λ q. mark_sent env.now q d.outbox)
                        (sym (sent_rows-taken env d.tries row rows e)))
                ∙ sym (mark_refused-taken env d.tries row rows _ e);
            log =
                rest.log
                ∙ append-cons d.published (message_of env region row)
                    (map (message_of env region) (sent_rows env (d.tries + 1) rows))
                ∙ ap (λ q. d.published ++ map (message_of env region) q)
                    (sym (sent_rows-taken env d.tries row rows e));
          }
    | inr (x, e) ↦
        subst (λ end. IsLoop env region (row ∷ rows) d (next_turn row rows end))
          (sym (publish_row-refused row d x e))
          (rw mark_failed-done record {
            no_error = refl;
            table = sym (
                mark_refused-refused env d.tries row rows _ x e
                ∙ ap (λ q. update_where (is_row row.id) (failed_row (describe_error x)) q)
                    (ap (λ q. mark_sent env.now q d.outbox)
                        (sent_rows-refused env d.tries row rows x e)
                      ∙ mark_sent-nil env.now d.outbox));
            log = sym (
                ap (λ q. d.published ++ map (message_of env region) q)
                  (sent_rows-refused env d.tries row rows x e)
                ∙ append-nil d.published);
          })
  ]

  end_drain-ok :
      (before : List OutboxRow) (end : Bool × Drain)
      → end.0 ≡ true
      → end_drain env before end ≡ (true, counted end.1)
  end_drain-ok before (true, d) h = rw (succeeds d.statements) refl
  end_drain-ok before (false, d) h = cc

  -- Where no statement fails, a drain is carried through. Its batch are, of the rows that are not
  -- dispatched and not locked, those with the lowest ids, in the order of their ids; the rows of the
  -- batch go to the broker in that order up to the first that it refuses, those rows are marked as
  -- dispatched, that one gets a further attempt and the error, and no other row and no message that
  -- was there before changes.
  pub drain_outbox_for_region-Sends :
      (d : Drain)
      → let batch = due_batch env d.outbox in
        let sent = sent_rows env d.tries batch in
        let end = drain_outbox_for_region env region d in
        IsAscending (λ (r : OutboxRow). r.id) batch
        × (end.0 ≡ true)
        × (end.1.outbox ≡ mark_refused env d.tries batch (mark_sent env.now sent d.outbox))
        × (end.1.published ≡ d.published ++ map (due_message env region) sent)
  unfolding drain_outbox_for_region claim_batch
  drain_outbox_for_region-Sends d =
      let loop = drain_rows-IsLoop (due_batch env d.outbox) (counted d) in
      rw
        (
          succeeds d.statements,
          end_drain-ok d.outbox (drain_rows env region (due_batch env d.outbox) (counted d))
              loop.no_error,
        )
        (IsAscending-first (λ (r : OutboxRow). r.id) env.batch_size _, refl, loop.table, loop.log)
