-- ===== src/Events/Workflow.antt =====
-- packages/events/workflow: the dispatching of event-dispatcher-initializer.ts, dispatched-event.ts,
-- event-handler-context.ts and the folder kafka, and `upcastEvent` of
-- packages/events/aggregate/schema/event-schema-manager.ts. The parser of JSON texts and the
-- deserialiser of events are parameters.
pub mod Initializer
pub mod Tests
pub mod Delivery
pub mod Subscribers
use nest_convoy.Prelude.{
  ℕ, String, Text, codes, Bool, true, false, Option, none, some, List, [], ◌∷◌, ◌++◌, ◌==◌, map,
  find, filter, if◌then◌else◌,
}
use nest_convoy.Prelude.Int.{ℤ, pos}
use nest_convoy.Prelude.Dict.{lookup, string_key}
use nest_convoy.Prelude.Result.{Result, ok, err}
use nest_convoy.Prelude.Result
use nest_convoy.Prelude.Effect.{
  M, ◌>>=◌, ◌>>◌, pure, throw, lift, for_each, when, all_each, floating,
}
use nest_convoy.Common.Exceptions.{type_error, error}
use nest_convoy.Messaging.Message.{Message}
use nest_convoy.Messaging.Kafka.Message.{
  Json, Registry, message_topic, message_partition, message_offset,
}
use nest_convoy.Messaging.Kafka.Consumer.{KafkaClient, ConsumerState, kafka_subscribe}
use nest_convoy.Events.Schema.{
  Class, EventMetadata, EventIdTypeAndData, Schemas, upcast_aggregate_events,
}
use nest_convoy.Events.Snapshot.Context.{event_token}
use nest_convoy.Events.Crud.{SerializedEvent, AggregatesAndEvents}
use nest_convoy.Events.Access.{SaveOptions, UpdateOptions}
use nest_convoy.Events.Repository.{AggregateRepository, EntityIdAndVersion}
use nest_convoy.Events.Repository

-- An event as the change data capture writes it.
pub record KafkaPublishedEvent : Type 0 where
  pub id : String
  pub entity_id : String
  pub entity_type : String
  pub event_data : String
  pub event_type : String
  pub metadata : Option String

-- The type of the payload is only asserted; `JSON.parse` of the two texts.
pub record EventParser (P J : Type 0) : Type 0 where
  pub published : P → KafkaPublishedEvent
  pub parse_data : String → Result J
  pub parse_metadata : String → Result EventMetadata

unfoldable pub aggregate_entry : Option (Class × List Class) → Result (Class × List Class)
aggregate_entry none = err type_error
aggregate_entry (some entry) = ok entry

abbrev pub signed : Option ℕ → Option ℤ
signed none = none
signed (some n) = some (pos n)

unfoldable pub found_event_type : Option Class → Result Class
found_event_type none = err error
found_event_type (some c) = ok c

module _ {P J : Type 0} (parser : EventParser P J) where
  unfoldable pub parsed_metadata : Option String → Result (Option EventMetadata)
  parsed_metadata none = ok none
  parsed_metadata (some text) =
      if text == ""
      then ok none
      else Result.◌>>=◌ (parser.parse_metadata text) λ metadata. ok (some metadata)

  unfoldable pub to_serialized_event : Message P → AggregatesAndEvents → Result (SerializedEvent J)
  unfolding parsed_metadata aggregate_entry found_event_type
  to_serialized_event m types =
      let pe = parser.published m.payload in
      Result.◌>>=◌ (message_partition m) λ partition. Result.◌>>=◌ (message_offset m) λ offset.
        Result.◌>>=◌ (message_topic m) λ topic.
          Result.◌>>=◌ (aggregate_entry (lookup pe.entity_type types)) λ entry.
            Result.◌>>=◌ (found_event_type (find (λ (c : Class). c.name == pe.event_type) entry.1))
              λ type. Result.◌>>=◌ (parser.parse_data pe.event_data) λ json.
                Result.◌>>=◌ (parsed_metadata pe.metadata) λ metadata. ok (record {
                  id = pe.id;
                  entity_id = pe.entity_id;
                  entity_type = entry.0;
                  event_data = json;
                  event_type = type;
                  partition = signed partition;
                  offset = offset;
                  event_context = event_token (record {
                    context_id = codes pe.id;
                    topic = codes topic;
                    partition = partition;
                    offset = offset;
                  });
                  metadata = metadata;
                })

-- `KafkaAggregateSubscriptions.subscribe`.
unfoldable pub has_aggregate : String → AggregatesAndEvents → Bool
has_aggregate name types = elim (lookup name types) [ none ↦ false | some _ ↦ true ]

module _ {W P J : Type 0} (parser : EventParser P J) where
  unfoldable pub handle_kafka_event :
      AggregatesAndEvents → (SerializedEvent J → M W (Unit {0})) → Message P → M W (Unit {0})
  unfolding has_aggregate
  handle_kafka_event types handler m = do
    se ← lift (to_serialized_event parser m types)
    when (has_aggregate se.entity_type.name types) (handler se)

  unfoldable pub kafka_aggregate_subscribe :
      {T : Type 0}
      → KafkaClient W T
      → Json T P
      → (P → P)
      → Option (Registry W P T)
      → AggregatesAndEvents
      → (SerializedEvent J → M W (Unit {0}))
      → M (ConsumerState W P) (Unit {0})
  unfolding handle_kafka_event
  kafka_aggregate_subscribe client json to_plain registry types handler =
      kafka_subscribe client json to_plain registry
        (map (λ (t : String × (Class × List Class)). t.0) types) (handle_kafka_event types handler)

-- The manager's `upcastEvent`.
unfoldable pub upcasted_first :
    {J : Type 0} → SerializedEvent J → List (EventIdTypeAndData J) → Result (SerializedEvent J)
upcasted_first se [] = err type_error
upcasted_first se (e ∷ _) =
    ok (record se { event_data = e.event_data; event_type = e.event_type; metadata = e.metadata })

unfoldable pub upcast_event :
    {J : Type 0} → Schemas J → SerializedEvent J → Result (SerializedEvent J)
unfolding upcasted_first
upcast_event schemas se =
    Result.◌>>=◌
      (upcast_aggregate_events se.entity_type
        (record {
          event_id = se.id;
          event_type = se.event_type;
          event_data = se.event_data;
          metadata = se.metadata;
        }
          ∷ [])
        schemas)
      (upcasted_first se)

pub record DispatchedEvent (E : Type 0) : Type 0 where
  pub entity_id : String
  pub event_id : String
  pub event : E
  pub offset : ℕ
  pub event_context : Text
  pub metadata : Option EventMetadata

-- `new DispatchedEvent(...)`: its parameters in their order.
abbrev pub dispatched_event :
    {E : Type 0} → String → String → E → ℕ → Text → Option EventMetadata → DispatchedEvent E
dispatched_event entity_id event_id event offset context metadata = record {
  entity_id = entity_id;
  event_id = event_id;
  event = event;
  offset = offset;
  event_context = context;
  metadata = metadata;
}

module _ {S J E : Type 0} (to_class : Class → J → M S E) where
  -- The identifiers are handed over as the code hands them over.
  unfoldable pub to_dispatched_event : SerializedEvent J → M S (DispatchedEvent E)
  to_dispatched_event se = do
    event ← to_class se.event_type se.event_data
    pure (dispatched_event se.id se.entity_id event se.offset se.event_context se.metadata)

  -- The handler that is subscribed for a method; its context is the dispatched event.
  unfoldable pub dispatch :
      Schemas J → (DispatchedEvent E → M S (Unit {0})) → SerializedEvent J → M S (Unit {0})
  unfolding to_dispatched_event
  dispatch schemas handler se = do
    upcasted ← lift (upcast_event schemas se)
    de ← to_dispatched_event upcasted
    handler de

-- `EventHandlerContext`: the repository of an aggregate is found by its class.
module _ {S A J I C E : Type 0} (repositories : Class → M S (AggregateRepository S A J I C))
    (de : DispatchedEvent E) where
  unfoldable pub context_save : Class → C → Option String → M S (EntityIdAndVersion J)
  context_save aggregate command entity_id = do
    ar ← repositories aggregate
    Repository.save ar command (
        some (record {
          save_metadata = none;
          save_trigger = some de.event_context;
          save_entity_id = entity_id;
        }))

  unfoldable pub context_update : Class → String → C → M S (EntityIdAndVersion J)
  context_update aggregate entity_id command = do
    ar ← repositories aggregate
    Repository.update ar entity_id command (
        some (record {
          update_metadata = none;
          update_trigger = some de.event_context;
          update_snapshot = none;
          interceptor = none;
        }))
