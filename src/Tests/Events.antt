-- ===== src/Tests/Events.antt =====
-- A drain of three rows, of which the broker refuses the second; and an inbound event twice.
use quickbite_order_service.Prelude.{
  Option, ◌+◌, ℕ, ◌≡◌, refl, Bool, true, false, none, some, [], ◌∷◌, ◌==◌, if◌then◌else◌, map,
}
use quickbite_order_service.Prelude.Text.{Text, codes}
use quickbite_order_service.Prelude.Sort.{IsAscending, order_by, insert_by}
use quickbite_order_service.Events.Entity.{
  OutboxRow, Payload, payment, payment_aggregate, payment_completed,
}
use quickbite_order_service.Events.Consumer.{
  CoreEventBody, CoreEventEnvelope, HandlerMap, Consumer, acked, dead_lettered, parse_envelope,
  handle_message, handle_envelope, dispatch, handle_all,
}
use quickbite_order_service.Events.Consumer.Once.{handle_message-once}
use quickbite_order_service.Events.Drain.{
  Thrown, DrainEnv, Drain, claim_batch, drain_outbox_for_region, drain_rows, publish_row, publish,
  mark_dispatched, mark_failed, describe_error,
}
use quickbite_order_service.Events.Drain.Calm.{
  due_batch, due_message, sent_rows, mark_refused, mark_sent, drain_outbox_for_region-Sends,
}
use quickbite_order_service.Events.Drain.Backed.{
  IsBackedRow, IsBacked, drain_outbox_for_region-IsBacked,
}

abbrev refusal : Thrown
refusal = record { message = some (codes "closed"); json = none; text = [] }

abbrev drain_env : (ℕ → Bool) → DrainEnv
drain_env is_failing = record {
  now = 9;
  exchange = codes "order.events";
  batch_size = 10;
  is_locked = λ id. false;
  publish_error = λ k. if k == 1 then some refusal else none;
  is_failing = is_failing;
  statement_error = refusal;
}

abbrev paid : Payload
paid = payment record {
  order_id = codes "o";
  region = codes "eg";
  restaurant_id = 1;
  branch_id = 2;
  customer_id = 3;
  provider_reference_id = codes "p";
  amount = 4;
  currency = codes "EGP";
  at_time = 5;
}

abbrev outbox_row : ℕ → OutboxRow
outbox_row id = record {
  id = id;
  aggregate_type = payment_aggregate;
  aggregate_id = codes "o";
  event_type = payment_completed;
  event_id = id ∷ [];
  payload = paid;
  created_at = 1;
  dispatched_at = none;
  attempts = 0;
  last_error = none;
}

-- The rows in another order than that of their ids.
abbrev drain_1 : Drain
drain_1 = record {
  outbox = outbox_row 3 ∷ outbox_row 1 ∷ outbox_row 2 ∷ [];
  published = [];
  statements = 0;
  tries = 0;
}

drain_outbox_for_region-Sends_example :
    let env = drain_env (λ k. false) in
    let batch = due_batch env drain_1.outbox in
    let end = drain_outbox_for_region env (codes "eg") drain_1 in
    IsAscending (λ (r : OutboxRow). r.id) batch
    × (end.0 ≡ true)
    × (end.1.outbox ≡ mark_refused env 0 batch (mark_sent 9 (sent_rows env 0 batch) drain_1.outbox))
    × (end.1.published ≡ map (due_message env (codes "eg")) (sent_rows env 0 batch))
drain_outbox_for_region-Sends_example =
    drain_outbox_for_region-Sends (drain_env (λ k. false)) (codes "eg") (λ k. refl) drain_1

-- The first row is sent, and the second fails.
refused_second :
    map
      (λ r. r.attempts)
      (drain_outbox_for_region (drain_env (λ k. false)) (codes "eg") drain_1).1.outbox
    ≡ 0 ∷ 0 ∷ 1 ∷ []
unfolding drain_outbox_for_region drain_rows publish_row publish mark_dispatched mark_failed
    describe_error claim_batch order_by insert_by
refused_second = refl

abbrev event_of : ℕ → Text
event_of id = id ∷ []

outbox_row-IsBacked : (id : ℕ) → IsBackedRow event_of [] (outbox_row id)
outbox_row-IsBacked id = record { event = refl; backed = λ e. cc }

-- The commit fails: statement 0 claims, 1 marks the first row, 2 marks the second as failed.
drain_outbox_for_region-IsBacked_example :
    IsBacked event_of (drain_outbox_for_region (drain_env (λ k. k == 3)) (codes "eg") drain_1).1
drain_outbox_for_region-IsBacked_example =
    drain_outbox_for_region-IsBacked (drain_env (λ k. k == 3)) (codes "eg") event_of drain_1
      (outbox_row-IsBacked 3, (outbox_row-IsBacked 1, (outbox_row-IsBacked 2, tt)))

-- A handler that counts its calls and fails.
abbrev failing_handlers : HandlerMap ℕ ℕ
failing_handlers = λ t. some (λ payload n. (false, n + 1))

abbrev price_event : Option (CoreEventBody ℕ)
price_event = some record {
  event_id = some (codes "e");
  event_type = some (codes "product.price.changed");
  payload = 7;
}

abbrev price_envelope : CoreEventEnvelope ℕ
price_envelope = record {
  event_id = codes "e";
  event_type = codes "product.price.changed";
  payload = 7;
}

abbrev empty_consumer : Consumer ℕ
empty_consumer = record { dedupe = λ e. false; state = 0 }

price_parsed : parse_envelope price_event ≡ some price_envelope
unfolding parse_envelope
price_parsed = refl

failed_first : (handle_message failing_handlers true price_event empty_consumer).0 ≡ dead_lettered
unfolding handle_message handle_envelope dispatch parse_envelope
failed_first = refl

handle_message-once_example :
    handle_message failing_handlers true price_event (
      handle_all failing_handlers []
        (handle_message failing_handlers true price_event empty_consumer).1)
    ≡ (
      acked,
      handle_all failing_handlers []
          (handle_message failing_handlers true price_event empty_consumer).1,
    )
handle_message-once_example =
    handle_message-once failing_handlers price_event price_event price_envelope price_envelope []
      empty_consumer price_parsed price_parsed refl
