-- ===== src/Events/Drain.antt =====
-- The drain of one region's outbox: lib/events/outbox-drain.ts, with the statements of
-- lib/events/outbox.repo.ts that it makes. Messages that the broker has taken stay with it when the
-- transaction is rolled back.
pub mod Calm
pub mod Backed
use quickbite_order_service.Prelude.{
  ℕ, ◌+◌, ◌&&◌, ◌++◌, Bool, true, false, not, Option, none, some, List, [], ◌∷◌, ◌==◌,
  if◌then◌else◌, is_some, take,
}
use quickbite_order_service.Prelude.Text.{Text}
use quickbite_order_service.Prelude.Rows.{select_where, update_where}
use quickbite_order_service.Prelude.Sort.{order_by}
use quickbite_order_service.Events.Entity.{OutboxRow, Aggregate, EventType, Payload}

-- What is thrown: the message of an Error, what JSON.stringify makes of it unless it throws, and String.
pub record Thrown : Type 0 where
  pub message : Option Text
  pub json : Option Text
  pub text : Text

pub record Envelope : Type 0 where
  pub event_id : Text
  pub event_type : EventType
  pub occurred_at : ℕ
  pub aggregate_type : Aggregate
  pub aggregate_id : Text
  pub region : Text
  pub payload : Payload

-- A message for the exchange, with its routing key; the envelope is sent as JSON.
pub record Message : Type 0 where
  pub exchange : Text
  pub routing_key : EventType
  pub envelope : Envelope

-- What a drain finds around it: the clock, the configuration, the rows that another drainer has locked,
-- what the broker throws at the k-th message, and whether the k-th statement fails, and with what.
pub record DrainEnv : Type 0 where
  pub now : ℕ
  pub exchange : Text
  pub batch_size : ℕ
  pub is_locked : ℕ → Bool
  pub publish_error : ℕ → Option Thrown
  pub is_failing : ℕ → Bool
  pub statement_error : Thrown

-- The table and the broker, with the number of statements and of messages tried so far.
pub record Drain : Type 0 where
  pub outbox : List OutboxRow
  pub published : List Message
  pub statements : ℕ
  pub tries : ℕ

-- `err instanceof Error && err.message`, else JSON.stringify, else String.
unfoldable pub describe_error : Thrown → Text
describe_error e = elim e.message [
  | some (c ∷ cs) ↦ c ∷ cs
  | _ ↦ elim e.json [ some j ↦ j | none ↦ e.text ]
]

abbrev is_row : ℕ → OutboxRow → Bool
is_row id row = row.id == id

-- dispatched_at IS NULL, and the row is not locked.
abbrev is_undispatched : DrainEnv → OutboxRow → Bool
is_undispatched env row = not (is_some row.dispatched_at) && not (env.is_locked row.id)

unfoldable pub claim_batch : DrainEnv → List OutboxRow → List OutboxRow
claim_batch env rows =
    take env.batch_size (order_by (λ r. r.id) (select_where (is_undispatched env) rows))

abbrev dispatched_row : ℕ → OutboxRow → OutboxRow
dispatched_row now row = record row { dispatched_at = some now }

abbrev failed_row : Text → OutboxRow → OutboxRow
failed_row error row = record row {
  attempts = row.attempts + 1;
  last_error = some (take 2000 error);
}

abbrev pub counted : Drain → Drain
counted d = record d { statements = d.statements + 1 }

-- The statements; `false` when they fail.
unfoldable pub mark_dispatched : DrainEnv → ℕ → Drain → Bool × Drain
mark_dispatched env id d = if env.is_failing d.statements then (false, counted d) else (
  true,
  record (counted d) { outbox = update_where (is_row id) (dispatched_row env.now) d.outbox },
)

unfoldable pub mark_failed : DrainEnv → ℕ → Text → Drain → Bool × Drain
mark_failed env id error d = if env.is_failing d.statements then (false, counted d) else (
  true,
  record (counted d) { outbox = update_where (is_row id) (failed_row error) d.outbox },
)

abbrev pub message_of : DrainEnv → Text → OutboxRow → Message
message_of env region row = record {
  exchange = env.exchange;
  routing_key = row.event_type;
  envelope = record {
    event_id = row.event_id;
    event_type = row.event_type;
    occurred_at = env.now;
    aggregate_type = row.aggregate_type;
    aggregate_id = row.aggregate_id;
    region = region;
    payload = row.payload;
  };
}

-- messageBroker.publish: what it throws, if anything.
unfoldable pub publish : DrainEnv → Message → Drain → Option Thrown × Drain
publish env message d =
    let e = env.publish_error d.tries in
    (
      e,
      record d {
        published = if is_some e then d.published else d.published ++ message ∷ [];
        tries = d.tries + 1;
      },
    )

-- The inner try: what is thrown at a row, and `none` when it is published and marked.
abbrev pub marked : DrainEnv → Bool × Drain → Option Thrown × Drain
marked env (true, d) = (none, d)
marked env (false, d) = (some env.statement_error, d)

abbrev after_publish : DrainEnv → OutboxRow → Option Thrown × Drain → Option Thrown × Drain
after_publish env row (some e, d) = (some e, d)
after_publish env row (none, d) = marked env (mark_dispatched env row.id d)

unfoldable pub publish_row : DrainEnv → Text → OutboxRow → Drain → Option Thrown × Drain
publish_row env region row d = after_publish env row (publish env (message_of env region row) d)

-- The loop; `false` when an error leaves it. A row that fails ends it.
unfoldable pub drain_rows : DrainEnv → Text → List OutboxRow → Drain → Bool × Drain
drain_rows env region [] d = (true, d)
drain_rows env region (row ∷ rows) d =
    let end = publish_row env region row d in
    elim end.0 [
      | none ↦ drain_rows env region rows end.1
      | some e ↦ mark_failed env row.id (describe_error e) end.1
    ]

-- The commit, or the rollback to the table of before.
abbrev end_drain : DrainEnv → List OutboxRow → Bool × Drain → Bool × Drain
end_drain env before (true, d) =
    if env.is_failing d.statements
    then (false, record (counted d) { outbox = before })
    else (true, counted d)
end_drain env before (false, d) = (false, record d { outbox = before })

unfoldable pub drain_outbox_for_region : DrainEnv → Text → Drain → Bool × Drain
drain_outbox_for_region env region d =
    if env.is_failing d.statements
    then (false, counted d)
    else end_drain env d.outbox (drain_rows env region (claim_batch env d.outbox) (counted d))
