-- ===== src/Events/Consumer/Once.antt =====
-- An event is handled at most once, whether its handler succeeds or fails.
use quickbite_order_service.Prelude.{
  ◌≡◌, refl, Bool, true, false, inl, inr, Option, some, List, [], ◌∷◌, arith, Bool-cases,
  Option-cases,
}
use quickbite_order_service.Prelude.Text.{Text, text_eq_refl}
use quickbite_order_service.Events.Consumer.{
  CoreEventBody, CoreEventEnvelope, HandlerMap, Consumer, acked, parse_envelope, set_dedupe,
  end_of_handler, dispatch, handle_envelope, handle_message, handle_all,
}

module _ {P A : Type 0} (handlers : HandlerMap P A) where
  end_of_handler-dedupe : (s : Consumer A) (r : Bool × A) → (end_of_handler s r).1.dedupe ≡ s.dedupe
  end_of_handler-dedupe s (true, a) = refl
  end_of_handler-dedupe s (false, a) = refl

  dispatch-dedupe :
      (envelope : CoreEventEnvelope P) (s : Consumer A)
      → (dispatch handlers envelope s).1.dedupe ≡ s.dedupe
  unfolding dispatch
  dispatch-dedupe envelope s = elim (Option-cases (handlers envelope.event_type)) [
    | inl e ↦ rw (dispatch, e) refl
    | inr (h, e) ↦ rw (dispatch, e) (end_of_handler-dedupe s (h envelope.payload s.state))
  ]

  -- The event is known afterwards.
  handle_envelope-known :
      (envelope : CoreEventEnvelope P) (s : Consumer A)
      → (handle_envelope handlers envelope s).1.dedupe envelope.event_id ≡ true
  unfolding handle_envelope
  handle_envelope-known envelope s = elim (Bool-cases (s.dedupe envelope.event_id)) [
    | inl e ↦ rw (handle_envelope, e) e
    | inr e ↦
        rw
          (
            handle_envelope,
            e,
            dispatch-dedupe envelope (set_dedupe envelope.event_id s),
            text_eq_refl envelope.event_id,
          )
          refl
  ]

  -- What is known stays known.
  handle_envelope-keeps :
      (envelope : CoreEventEnvelope P) (s : Consumer A) (event_id : Text)
      → s.dedupe event_id ≡ true
      → (handle_envelope handlers envelope s).1.dedupe event_id ≡ true
  unfolding handle_envelope
  handle_envelope-keeps envelope s event_id known = elim (Bool-cases (s.dedupe envelope.event_id)) [
    | inl e ↦ rw (handle_envelope, e) known
    | inr e ↦
        rw (handle_envelope, e, dispatch-dedupe envelope (set_dedupe envelope.event_id s))
          (ground arith)
  ]

  handle_message-keeps :
      (is_cache_up : Bool) (body : Option (CoreEventBody P)) (s : Consumer A) (event_id : Text)
      → s.dedupe event_id ≡ true
      → (handle_message handlers is_cache_up body s).1.dedupe event_id ≡ true
  unfolding handle_message
  handle_message-keeps is_cache_up body s event_id known =
      elim (Option-cases (parse_envelope body)) [
        | inl e ↦ rw (handle_message, e) known
        | inr (envelope, e) ↦ elim (Bool-cases is_cache_up) [
          | inl up ↦ rw (handle_message, e, up) (handle_envelope-keeps envelope s event_id known)
          | inr down ↦ rw (handle_message, e, down) known
        ]
      ]

  handle_all-keeps :
      (messages : List (Bool × Option (CoreEventBody P))) (s : Consumer A) (event_id : Text)
      → s.dedupe event_id ≡ true
      → (handle_all handlers messages s).dedupe event_id ≡ true
  unfolding handle_all
  handle_all-keeps [] s event_id known = known
  handle_all-keeps ((is_cache_up, body) ∷ messages) s event_id known =
      handle_all-keeps messages (handle_message handlers is_cache_up body s).1 event_id
        (handle_message-keeps is_cache_up body s event_id known)

  handled_before :
      (body : Option (CoreEventBody P)) (envelope : CoreEventEnvelope P) (s : Consumer A)
      → parse_envelope body ≡ some envelope
      → s.dedupe envelope.event_id ≡ true
      → handle_message handlers true body s ≡ (acked, s)
  unfolding handle_message handle_envelope
  handled_before body envelope s parsed known =
      rw (handle_message, parsed, handle_envelope, known) refl

  -- Once a message of an event was taken while the cache answered, every later message of the event
  -- that is taken while the cache answers and the key stays is acknowledged and changes nothing,
  -- whatever messages came in between. So it is also when the handler failed at the first.
  pub handle_message-once :
      (first again : Option (CoreEventBody P)) (envelope envelope' : CoreEventEnvelope P)
      (messages : List (Bool × Option (CoreEventBody P))) (s : Consumer A)
      → parse_envelope first ≡ some envelope
      → parse_envelope again ≡ some envelope'
      → envelope'.event_id ≡ envelope.event_id
      → handle_message handlers true again
          (handle_all handlers messages (handle_message handlers true first s).1)
        ≡ (acked, handle_all handlers messages (handle_message handlers true first s).1)
  unfolding handle_message
  handle_message-once first again envelope envelope' messages s parsed parsed' same =
      let s_1 = (handle_message handlers true first s).1 in
      let s_2 = handle_all handlers messages s_1 in
      let known : s_1.dedupe envelope.event_id ≡ true =
        rw (handle_message, parsed) (handle_envelope-known envelope s) in
      handled_before again envelope' s_2 parsed'
        (rw same (handle_all-keeps messages s_1 envelope.event_id known))
