-- ===== src/Events/Domain/Delivery.antt =====
-- packages/events: the way of a domain event from its publisher to its handler.
use nest_convoy.Prelude.{
  String, ◌≡◌, refl, ◌∙◌, false, Option, none, some, List, [], ◌∷◌, if◌then◌else◌, ◌==◌, ◌&&◌, find,
  Bool-cases, inl, inr,
}
use nest_convoy.Prelude.Result.{Result, ok}
use nest_convoy.Prelude.Effect.{M, ◌>>=◌, pure, lift}
use nest_convoy.Messaging.Headers.{MessageHeaders, get}
use nest_convoy.Messaging.Headers.Laws.{get-set}
use nest_convoy.Messaging.Message.{Message, id_header, get_header, get_required_header}
use nest_convoy.Messaging.Builder.{with_payload, with_reference, with_extra_headers, with_header}
use nest_convoy.Messaging.ChannelMapping.{ConvoyChannelMapping}
use nest_convoy.Messaging.Producer.{stamped}
use nest_convoy.Messaging.Producer.Laws.{get-stamped}
use nest_convoy.Commands.Command.{Instance}
use nest_convoy.Events.Domain.{
  create_message_for_domain_event, invoke_event_handler, handle_event_message,
}
use nest_convoy.Events.Domain.Handlers.{
  event_type, aggregate_type, aggregate_id, partition_id, DomainEventHandler, DomainEventEnvelope,
  handles_event, find_event_handler,
}

module _ {P : Type 0} where
  -- The headers that an event's message has whatever the extra headers are.
  pub get-create_message_for_domain_event :
      (j type id : String) (headers : MessageHeaders) (event : Instance P)
      → get j (create_message_for_domain_event type id headers event).headers ≡ (
          if event_type == j
          then some event.constructor_name
          else if aggregate_type == j
          then some type
          else if aggregate_id == j
          then some id
          else if partition_id == j
          then some id
          else get j
              (with_extra_headers headers (with_reference event (with_payload event))).headers)
  unfolding create_message_for_domain_event with_header
  get-create_message_for_domain_event j type id headers event = simp get-set

  -- A header with a value is a required header that is there.
  get_required_header-value :
      (j v : String) (m : Message P)
      → get j m.headers ≡ some v
      → (v == "") ≡ false
      → get_required_header j m ≡ ok v
  unfolding get_required_header get_header
  get_required_header-value j v m e full = rw (e, full) refl

  get_header-value : (j v : String) (m : Message P) → get j m.headers ≡ some v → get_header j m ≡ v
  unfolding get_header
  get_header-value j v m e = rw e refl

module _ {P : Type 0} where
  -- What the handler of an event is given: its message, the type and the identifier of its
  -- aggregate, the message's identifier and the parsed event.
  abbrev pub envelope : Message P → String → String → String → P → DomainEventEnvelope P
  envelope m type id message_id event = record {
    message = m;
    envelope_type = type;
    envelope_id = id;
    event_id = message_id;
    event = event;
  }

  -- The message that the producer makes of an event and stamps.
  abbrev pub published :
      ConvoyChannelMapping
      → String
      → String
      → String
      → String
      → String
      → MessageHeaders
      → Instance P
      → Message P
  published mapping message_id destination date type id headers event =
      stamped mapping message_id destination date
        (create_message_for_domain_event type id headers event)

module _ {W P : Type 0} where
  find_event_handler-find :
      (handlers : List (DomainEventHandler W P)) (m : Message P) (type name : String)
      → get_header aggregate_type m ≡ type
      → get_required_header event_type m ≡ ok name
      → find_event_handler handlers m
        ≡ ok (
            find
              (λ (h : DomainEventHandler W P). (h.handler_type == type) && (h.event_name == name))
              handlers)
  unfolding find_event_handler handles_event
  find_event_handler-find [] m type name t n = refl
  find_event_handler-find (h ∷ hs) m type name t n = elim (Bool-cases (h.handler_type == type)) [
    | inl same ↦
        rw (t, same, n)
          (elim (Bool-cases (h.event_name == name)) [
            | inl taken ↦ rw taken refl
            | inr other ↦ rw other (find_event_handler-find hs m type name t n)
          ])
    | inr other ↦ rw (t, other) (find_event_handler-find hs m type name t n)
  ]

  -- What a dispatcher does with a message whose headers say the aggregate, the event's type and the
  -- identifiers.
  handle_event_message-headers :
      (parse : String → P → Result P) (handlers : List (DomainEventHandler W P)) (m : Message P)
      (type name : String)
      → get_required_header aggregate_type m ≡ ok type
      → get_header aggregate_type m ≡ type
      → get_required_header event_type m ≡ ok name
      → (w : W)
      → handle_event_message parse handlers m w
        ≡ invoke_event_handler parse type m
            (find
              (λ (h : DomainEventHandler W P). (h.handler_type == type) && (h.event_name == name))
              handlers)
            w
  unfolding handle_event_message
  handle_event_message-headers parse handlers m type name r t n w =
      rw (r, find_event_handler-find handlers m type name t n) refl

  -- The first handler for the type of the aggregate and of the event gets the parsed event; without
  -- one, nothing happens.
  abbrev pub delivered :
      (String → P → Result P)
      → Message P
      → String
      → String
      → String
      → Option (DomainEventHandler W P)
      → M W (Unit {0})
  delivered parse m type id message_id none = pure tt
  delivered parse m type id message_id (some h) = lift (parse h.event_name m.payload) >>= λ event.
      h.invoke (envelope m type id message_id event)

  invoke-delivered :
      (parse : String → P → Result P) (m : Message P) (type id message_id : String)
      (h : Option (DomainEventHandler W P))
      → get_required_header aggregate_id m ≡ ok id
      → get_required_header id_header m ≡ ok message_id
      → (w : W) → invoke_event_handler parse type m h w ≡ delivered parse m type id message_id h w
  invoke-delivered parse m type id message_id none i j w = refl
  invoke-delivered parse m type id message_id (some h) i j w = rw (i, j) refl

  -- A published event arrives: the message that the producer makes of it and stamps, whatever the
  -- extra headers are, reaches the first handler of a dispatcher that was registered for the type of
  -- the aggregate and for the name of the event's class, with the aggregate's identifier and the
  -- identifier of the message; a dispatcher without such a handler passes it over. The type, the
  -- name and the two identifiers are not empty.
  pub published_event_is_handled :
      (parse : String → P → Result P) (handlers : List (DomainEventHandler W P))
      (mapping : ConvoyChannelMapping) (message_id destination date type id : String)
      (headers : MessageHeaders) (event : Instance P)
      → (message_id == "") ≡ false
      → (type == "") ≡ false
      → (id == "") ≡ false
      → (event.constructor_name == "") ≡ false
      → (w : W)
      → handle_event_message parse handlers
          (published mapping message_id destination date type id headers event)
          w
        ≡ delivered parse
            (published mapping message_id destination date type id headers event)
            type
            id
            message_id
            (find
              (λ (h : DomainEventHandler W P).
                (h.handler_type == type) && (h.event_name == event.constructor_name))
              handlers)
            w
  published_event_is_handled parse handlers mapping message_id destination date type id headers
        event full_message full_type full_id full_name w =
      let m = published mapping message_id destination date type id headers event in
      let t : get aggregate_type m.headers ≡ some type =
        simp (get-stamped, get-create_message_for_domain_event) in
      let n : get event_type m.headers ≡ some event.constructor_name =
        simp (get-stamped, get-create_message_for_domain_event) in
      let i : get aggregate_id m.headers ≡ some id =
        simp (get-stamped, get-create_message_for_domain_event) in
      let j : get id_header m.headers ≡ some message_id = simp get-stamped in
      handle_event_message-headers parse handlers m type event.constructor_name
        (get_required_header-value aggregate_type type m t full_type)
        (get_header-value aggregate_type type m t)
        (get_required_header-value event_type event.constructor_name m n full_name) w
      ∙ invoke-delivered parse m type id message_id _
          (get_required_header-value aggregate_id id m i full_id)
          (get_required_header-value id_header message_id m j full_message) w
