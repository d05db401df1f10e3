-- ===== src/Events/Domain.antt =====
-- packages/events: publisher/domain-event-publisher.ts, and of the folder subscriber the builder of
-- handlers and the dispatcher. How the serialiser parses the object of a class is a parameter.
pub mod Handlers
pub mod Delivery
use nest_convoy.Prelude.{
  String, Bool, true, false, Option, none, some, List, [], ◌∷◌, ◌++◌, if◌then◌else◌, ◌==◌, map,
}
use nest_convoy.Prelude.Result.{Result, ok, err}
use nest_convoy.Prelude.Effect.{M, ◌>>=◌, ◌>>◌, pure, lift}
use nest_convoy.Messaging.Headers.{MessageHeaders}
use nest_convoy.Messaging.Message.{Message, get_header, get_required_header, id_header}
use nest_convoy.Messaging.Builder.{
  with_payload, with_reference, with_extra_headers, with_header, build,
}
use nest_convoy.Messaging.Producer.{ConvoyMessageProducer, send_batch}
use nest_convoy.Commands.Command.{Instance}
use nest_convoy.Events.Domain.Handlers.{
  DomainEventEnvelope, DomainEventHandler, find_event_handler, event_type, aggregate_type,
  aggregate_id, partition_id,
}

-- An aggregate's identifier may be a number; here it is the text that it stands as in a header.
unfoldable pub create_message_for_domain_event :
    {P : Type 0} → String → String → MessageHeaders → Instance P → Message P
create_message_for_domain_event type id headers event = build (
    with_header event_type event.constructor_name (
      with_header aggregate_type type (
        with_header aggregate_id id (
          with_header partition_id id
            (with_extra_headers headers (with_reference event (with_payload event)))))))

-- The type that the handlers to come are for, and those given so far.
pub record DomainEventHandlersBuilder (W P : Type 0) : Type 0 where
  pub builder_type : String
  pub handlers : List (DomainEventHandler W P)

module _ {W P : Type 0} where
  unfoldable pub publish :
      ConvoyMessageProducer W P
      → String
      → String
      → List (Instance P)
      → MessageHeaders
      → M W (List (Message P))
  publish producer type id events headers =
      send_batch producer type (map (create_message_for_domain_event type id headers) events) true

  abbrev pub invoke_event_handler :
      (String → P → Result P)
      → String
      → Message P
      → Option (DomainEventHandler W P)
      → M W (Unit {0})
  invoke_event_handler parse type m none = pure tt
  invoke_event_handler parse type m (some handler) = do
    parsed ← lift (parse handler.event_name m.payload)
    id ← lift (get_required_header aggregate_id m)
    message_id ← lift (get_required_header id_header m)
    handler.invoke (record {
      message = m;
      envelope_type = type;
      envelope_id = id;
      event_id = message_id;
      event = parsed;
    })

  -- The dispatcher's `handleMessage`.
  unfoldable pub handle_event_message :
      (String → P → Result P) → List (DomainEventHandler W P) → Message P → M W (Unit {0})
  handle_event_message parse handlers m = do
    type ← lift (get_required_header aggregate_type m)
    found ← lift (find_event_handler handlers m)
    invoke_event_handler parse type m found

  -- The channels of the dispatcher's subscription, one for each handler.
  unfoldable pub get_aggregate_types_and_events : List (DomainEventHandler W P) → List String
  get_aggregate_types_and_events [] = []
  get_aggregate_types_and_events (h ∷ hs) = h.handler_type ∷ get_aggregate_types_and_events hs

  abbrev pub for_aggregate_type : String → DomainEventHandlersBuilder W P
  for_aggregate_type type = record { builder_type = type; handlers = [] }

  unfoldable pub on_event :
      String
      → (DomainEventEnvelope P → M W (Unit {0}))
      → DomainEventHandlersBuilder W P
      → DomainEventHandlersBuilder W P
  on_event name handler b = record b {
    handlers =
        b.handlers
        ++ (record { event_name = name; invoke = handler; handler_type = b.builder_type } ∷ []);
  }

  unfoldable pub and_for_aggregate_type :
      String → DomainEventHandlersBuilder W P → DomainEventHandlersBuilder W P
  and_for_aggregate_type type b = record b { builder_type = type }
