-- ===== src/Events/Workflow/Delivery.antt =====
-- An event on its way from the broker to a handler of packages/events/workflow.
use text.Mathlib.TextEquality.{eq_iff}
use nest_convoy.Prelude.{
  ℕ, String, Text, codes, ◌==◌, ◌≡◌, refl, sym, ap, ◌∙◌, true, false, Option, none, some, [], ◌∷◌,
  inl, inr, find, Bool-cases, List,
}
use nest_convoy.Prelude.Dict.{lookup, string_key}
use nest_convoy.Prelude.Decimal.{decimal, codes-decimal}
use nest_convoy.Prelude.Numbers.{print_nat, print_nat_head, is_digit}
use nest_convoy.Prelude.Split.{Without}
use nest_convoy.Prelude.Result.{Result, ok}
use nest_convoy.Prelude.Effect.{>>=-step, M, ◌>>=◌, lift}
use nest_convoy.Messaging.Headers.{get}
use nest_convoy.Messaging.Headers.Laws.{IsMap}
use nest_convoy.Messaging.Message.{Message, id, get_header, get_required_header}
use nest_convoy.Messaging.Kafka.Message.{
  number_or_nan, Json, partition_header, offset_header, topic_header, message_topic,
  message_partition, to_number, message_offset, to_producer_message, from_each_message,
}
use nest_convoy.Messaging.Kafka.Message.RoundTrip.{delivered, delivered_header, from-to}
use nest_convoy.Events.Schema.{Class, EventMetadata}
use nest_convoy.Events.Snapshot.Context.{decode, event_token, DecodedEtpoContext}
use nest_convoy.Events.Snapshot.Laws.{big_int-print_nat, decode-event_token}
use nest_convoy.Events.Crud.{SerializedEvent, AggregatesAndEvents}
use nest_convoy.Events.Workflow.{
  pos, KafkaPublishedEvent, EventParser, to_serialized_event, parsed_metadata,
}

-- A header that stands in the map and is not empty is read.
get_required-get :
    {P : Type 0} (name : String) (m : Message P) (v : String)
    → get name m.headers ≡ some v
    → (v == "") ≡ false
    → get_required_header name m ≡ ok v
unfolding get_required_header get_header
get_required-get name m v found filled = rw (found, filled) refl

decimal-nonempty : (n : ℕ) → (decimal n == "") ≡ false
decimal-nonempty n = elim (Bool-cases (decimal n == "")) [
  | inl empty ↦ absurd (
      no_digit (print_nat_head n [])
        (sym (codes-decimal n) ∙ ap codes ((eq_iff (decimal n) "").0 empty)))
  | inr filled ↦ filled
]
  where
    no_digit :
        (c : ℕ) × (t : Text) × (print_nat n [] ≡ c ∷ t) × (is_digit c ≡ true)
        → print_nat n [] ≡ []
        → ⊥
    no_digit (c, t, e, d) h = cc

to_number-print_nat : (n : ℕ) → to_number (print_nat n []) ≡ some n
unfolding to_number
to_number-print_nat n = ap number_or_nan (big_int-print_nat n)

-- The broker's headers are read back as they were written.
message_partition-decimal :
    {P : Type 0} (m : Message P) (n : ℕ)
    → get partition_header m.headers ≡ some (decimal n)
    → message_partition m ≡ ok (some n)
unfolding message_partition
message_partition-decimal m n found =
    rw (get_required-get partition_header m (decimal n) found (decimal-nonempty n), codes-decimal n)
      (ap ok (to_number-print_nat n))

message_offset-decimal :
    {P : Type 0} (m : Message P) (n : ℕ)
    → get offset_header m.headers ≡ some (decimal n)
    → message_offset m ≡ ok n
unfolding message_offset
message_offset-decimal m n found =
    rw (get_required-get offset_header m (decimal n) found (decimal-nonempty n), codes-decimal n)
      (big_int-print_nat n)

message_topic_lem :
    {P : Type 0} (m : Message P) (topic : String)
    → get topic_header m.headers ≡ some topic
    → (topic == "") ≡ false
    → message_topic m ≡ ok topic
unfolding message_topic
message_topic_lem m topic found named = get_required-get topic_header m topic found named

module _ (pe : KafkaPublishedEvent) (topic : String) (partition offset : ℕ) where
  abbrev pub published_context : DecodedEtpoContext
  published_context = record {
    context_id = codes pe.id;
    topic = codes topic;
    partition = some partition;
    offset = offset;
  }

  -- What the subscriber is given of a published event.
  abbrev pub published_event :
      {J : Type 0} → Class → Class → J → Option EventMetadata → SerializedEvent J
  published_event aggregate type json metadata = record {
    id = pe.id;
    entity_id = pe.entity_id;
    entity_type = aggregate;
    event_data = json;
    event_type = type;
    partition = some (pos partition);
    offset = offset;
    event_context = event_token published_context;
    metadata = metadata;
  }

-- A message of a published event that was sent without a registry and delivered becomes the
-- serialized event: the identifiers, the data and the metadata are those of the published event,
-- the classes are those that were subscribed under its names, and the partition and the offset are
-- those of the delivery. Its token is read back as the event's identifier with the topic, the
-- partition and the offset. The message has an identifier, its aggregate and its event were
-- subscribed, its texts can be parsed, and neither the event's identifier nor the topic, which is
-- not empty, holds a colon.
pub to_serialized_event-delivered :
    {W P T J : Type 0} (json : Json T P) (parser : EventParser P J) (to_plain : P → P)
    (m : Message P) (s : W) (topic key : String) (partition offset : ℕ)
    (types : AggregatesAndEvents) {aggregate type : Class} {events : List Class} {value : J}
    {metadata : Option EventMetadata} (pe : KafkaPublishedEvent)
    → parser.published (to_plain m.payload) ≡ pe
    → IsMap m.headers
    → id m ≡ ok key
    → (topic == "") ≡ false
    → lookup pe.entity_type types ≡ some (aggregate, events)
    → find (λ (c : Class). c.name == pe.event_type) events ≡ some type
    → parser.parse_data pe.event_data ≡ ok value
    → parsed_metadata parser pe.metadata ≡ ok metadata
    → Without b':' (codes pe.id)
    → Without b':' (codes topic)
    → (((to_producer_message {W = W} json to_plain none m >>= λ r.
              from_each_message json to_plain none (delivered topic partition offset r))
            >>= λ d. lift (to_serialized_event parser d types))
          s
        ≡ (ok (published_event pe topic partition offset aggregate type value metadata), s))
      × (decode
            (published_event pe topic partition offset aggregate type value metadata).event_context
          ≡ ok (some (published_context pe topic partition offset)))
unfolding to_serialized_event
to_serialized_event-delivered {W} {P} {T} {J} json parser to_plain m s topic key partition offset
      types {aggregate} {type} {events} {value} {metadata} pe published map has named entry typed
      parsed parsed_meta plain_id plain_topic =
    (
      go (from-to json to_plain m s topic key partition offset map has),
      decode-event_token _ (plain_id, plain_topic),
    )
  where
    fetch : M W (Message P)
    fetch = to_producer_message json to_plain none m >>= λ r.
        from_each_message json to_plain none (delivered topic partition offset r)

    go :
        (d : Message P) × (fetch s ≡ (ok d, s))
          × (d.payload ≡ to_plain m.payload)
          × ((j : String) → get j d.headers ≡ delivered_header topic partition offset m.headers j)
        → (fetch >>= λ d. lift (to_serialized_event parser d types)) s
          ≡ (ok (published_event pe topic partition offset aggregate type value metadata), s)
    go (d, fetched, payload, headers) =
        >>=-step fetch (λ d. lift (to_serialized_event parser d types)) s s (ok d) fetched
        ∙ ap (λ (r : Result (SerializedEvent J)). (r, s)) serialized
      where
        serialized :
            to_serialized_event parser d types
            ≡ ok (published_event pe topic partition offset aggregate type value metadata)
        serialized =
            rw
              (
                message_partition-decimal d partition (headers partition_header),
                message_offset-decimal d offset (headers offset_header),
                message_topic_lem d topic (headers topic_header) named,
                payload,
                published,
                entry,
                typed,
                parsed,
                parsed_meta,
              )
              refl
