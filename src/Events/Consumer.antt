-- ===== src/Events/Consumer.antt =====
-- The consumer of the events of core: lib/core-events/consumer.ts, and what the message client of
-- pkg/messaging/rabbitmq does when it throws. A handler works on a state and can fail half way; a
-- dedupe key stays for a day, which no run of the model outlasts.
pub mod Once
use quickbite_order_service.Prelude.{
  Bool, true, false, Option, none, some, List, [], ◌∷◌, if◌then◌else◌, is_some,
}
use quickbite_order_service.Prelude.Text.{Text, codes, text_eq}

-- The body of a message once it has been parsed; a body that cannot be parsed is none. `occurredAt`,
-- which the consumer does not read, is left out.
pub record CoreEventBody (P : Type 0) : Type 0 where
  pub event_id : Option Text
  pub event_type : Option Text
  pub payload : P

pub record CoreEventEnvelope (P : Type 0) : Type 0 where
  pub event_id : Text
  pub event_type : Text
  pub payload : P

-- `false` when the handler throws.
abbrev CoreEventHandler : Type 0 → Type 0 → Type 0
CoreEventHandler P A = P → A → Bool × A

-- The keys `core-events:dedupe:*` by event, and the state of the handlers.
pub record Consumer (A : Type 0) : Type 0 where
  pub dedupe : Text → Bool
  pub state : A

pub data Reply : Type 0 where
  acked dead_lettered : Reply

-- A text that is missing or empty counts as missing.
abbrev pub truthy : Option Text → Option Text
truthy none = none
truthy (some []) = none
truthy (some (c ∷ cs)) = some (c ∷ cs)

abbrev pub HandlerMap : Type 0 → Type 0 → Type 0
HandlerMap Q B = Text → Option (CoreEventHandler Q B)

module _ {P : Type 0} where
  unfoldable pub parse_envelope : Option (CoreEventBody P) → Option (CoreEventEnvelope P)
  parse_envelope none = none
  parse_envelope (some body) = elim (truthy body.event_id) [
    | none ↦ none
    | some event_id ↦ elim (truthy body.event_type) [
      | none ↦ none
      | some event_type ↦
          some record { event_id = event_id; event_type = event_type; payload = body.payload }
    ]
  ]

module _ {A : Type 0} where
  abbrev set_dedupe : Text → Consumer A → Consumer A
  set_dedupe event_id s = record s { dedupe = λ e. if text_eq event_id e then true else s.dedupe e }

  abbrev end_of_handler : Consumer A → Bool × A → Reply × Consumer A
  end_of_handler s (true, a) = (acked, record s { state = a })
  end_of_handler s (false, a) = (dead_lettered, record s { state = a })

module _ {P A : Type 0} where
  -- `none` when the type has a handler already.
  unfoldable register_handler :
      Text → CoreEventHandler P A → HandlerMap P A → Option (HandlerMap P A)
  register_handler event_type handler handlers =
      if is_some (handlers event_type)
      then none
      else some (λ t. if text_eq event_type t then some handler else handlers t)

  -- A message whose event is new: its key has been set.
  unfoldable pub dispatch : HandlerMap P A → CoreEventEnvelope P → Consumer A → Reply × Consumer A
  dispatch handlers envelope s = elim (handlers envelope.event_type) [
    | none ↦ (acked, s)
    | some handler ↦ end_of_handler s (handler envelope.payload s.state)
  ]

  unfoldable pub handle_envelope :
      HandlerMap P A → CoreEventEnvelope P → Consumer A → Reply × Consumer A
  handle_envelope handlers envelope s =
      if s.dedupe envelope.event_id
      then (acked, s)
      else dispatch handlers envelope (set_dedupe envelope.event_id s)

  -- The flag says whether the cache answers; when it does not, the client sends the message to the
  -- dead letters.
  unfoldable pub handle_message :
      HandlerMap P A → Bool → Option (CoreEventBody P) → Consumer A → Reply × Consumer A
  handle_message handlers is_cache_up body s = elim (parse_envelope body) [
    | none ↦ (dead_lettered, s)
    | some envelope ↦
        if is_cache_up then handle_envelope handlers envelope s else (dead_lettered, s)
  ]

  -- Messages one after another.
  unfoldable pub handle_all :
      HandlerMap P A → List (Bool × Option (CoreEventBody P)) → Consumer A → Consumer A
  handle_all handlers [] s = s
  handle_all handlers ((is_cache_up, body) ∷ messages) s =
      handle_all handlers messages (handle_message handlers is_cache_up body s).1
