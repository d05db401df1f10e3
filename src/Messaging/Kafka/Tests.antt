-- ===== src/Messaging/Kafka/Tests.antt =====
-- Deliveries, a message and schemas of packages/messaging/broker/kafka at concrete inputs.
use nest_convoy.Prelude.{
  ◌≡◌, refl, ℕ, zero, suc, ◌<◌, String, false, true, Option, none, some, List, [], ◌∷◌, ◌++◌, ◌⊎◌,
  inl, inr, arith,
}
use nest_convoy.Prelude.Dict.{lookup, string_key}
use nest_convoy.Prelude.Result.{Result, ok, err}
use nest_convoy.Prelude.Effect.{◌>>=◌, pure, modify, all_each}
use nest_convoy.Common.Exceptions.{range_error}
use nest_convoy.Messaging.Headers.{MessageHeaders, get}
use nest_convoy.Messaging.Headers.Laws.{IsMap}
use nest_convoy.Messaging.Message.{
  Message, plain, id, id_header, type_header, get_required_header, get_header,
}
use nest_convoy.Messaging.Kafka.{put_state}
use nest_convoy.Messaging.Kafka.Message.{
  EachMessagePayload, Json, to_producer_message, from_each_message,
}
use nest_convoy.Messaging.Kafka.Message.RoundTrip.{delivered, delivered_header, from-to}
use nest_convoy.Messaging.Kafka.Consumer.{
  SerializedOffset, KafkaClient, KafkaMessageProcessor, ConsumerState, each_message,
}
use nest_convoy.Messaging.Kafka.Consumer.Commits.{Waits, handled, each_message_lem}
use nest_convoy.Events.Schema.{Class}
use nest_convoy.Messaging.Kafka.Avro.{
  property, class_type, array_type, plain_type, no_args, arg, Properties, AvroSchemaMetadata,
  create_avro_schema,
}
use nest_convoy.Messaging.Kafka.Avro.Cycles.{
  Falls, create_avro_schema_cycle, create_avro_schema_enough,
}
use nest_convoy.Messaging.Kafka.Avro.Mentions.{AllWithin, IsOk}

-- A text is what it was made of.
abbrev json : Json (ℕ × MessageHeaders) ℕ
json = record { stringify = λ p h. (p, h); parse = λ t. ok t; parse-stringify = λ p h. refl }

abbrev headers : MessageHeaders
headers = (id_header, "m1") ∷ (type_header, "Order") ∷ []

headers-IsMap : IsMap headers
headers-IsMap = ((refl, tt), (tt, tt))

abbrev sent : Message ℕ
sent = plain 7 headers

headers-id : id sent ≡ ok "m1"
unfolding id get_required_header get_header get
headers-id = refl

from-to_example :
    (d : Message ℕ) × ((to_producer_message {W = ℕ} json (λ p. p) none sent >>= λ r.
    from_each_message json (λ p. p) none (delivered "orders" 2 41 r))
        0
      ≡ (ok d, 0))
    × (d.payload ≡ 7)
    × ((j : String) → get j d.headers ≡ delivered_header "orders" 2 41 headers j)
from-to_example = from-to json (λ p. p) sent 0 "orders" "m1" 2 41 headers-IsMap headers-id

-- The state is what was committed.
abbrev client : KafkaClient (List SerializedOffset) (ℕ × MessageHeaders)
client = record {
  producer_send = λ destination messages. pure tt;
  consumer_subscribe = λ topic from_beginning. pure tt;
  commit_offsets = λ offsets. modify (λ committed. committed ++ offsets);
}

abbrev each : EachMessagePayload (ℕ × MessageHeaders)
each = record {
  topic = "orders";
  partition = 2;
  offset = 41;
  key = some "m1";
  value = (7, []);
  headers = some [];
}

-- The delivery before this one failed, and so did one of another partition.
abbrev processor : KafkaMessageProcessor (List SerializedOffset) ℕ
processor = record {
  handlers = (λ m. pure tt) ∷ (λ m. pure tt) ∷ [];
  tracker =
      put_state "orders" 0 (record { unprocessed = 7 ∷ []; processed = [] })
        (put_state "orders" 2 (record { unprocessed = 41 ∷ []; processed = [] }) []);
}

abbrev consumer : ConsumerState (List SerializedOffset) ℕ
consumer = record { processors = ("orders", processor) ∷ []; world = [] }

abbrev read_message : Message ℕ
read_message = elim (from_each_message {W = ℕ} json (λ p. p) none each 0).0 [
  | ok m ↦ m
  | err e ↦ plain 0 []
]

processor-Waits : Waits "orders" 2 (41 ∷ []) processor.tracker
unfolding nest_convoy.Messaging.Kafka.get_state put_state
    nest_convoy.Messaging.Kafka.offsets_to_commit nest_convoy.Messaging.Kafka.to_commit
    nest_convoy.Messaging.Kafka.includes
processor-Waits = (refl, refl)

each_message_lem_example :
    each_message client json (λ p. p) none each consumer
    ≡ handled client each consumer processor (41 ∷ []) (
        all_each
          (λ (h : Message ℕ → List SerializedOffset → Result (Unit {0}) × List SerializedOffset).
            h read_message)
          processor.handlers
          [])
unfolding lookup from_each_message nest_convoy.Messaging.Kafka.Message.kafka_message_from
each_message_lem_example =
    each_message_lem client json (λ p. p) none each consumer processor (41 ∷ []) refl (refl, tt)
      processor-Waits refl

abbrev node : Class
node = record { identity = 0; name = "Node" }

abbrev leaf : Class
leaf = record { identity = 1; name = "Leaf" }

abbrev undecorated : Class → Option AvroSchemaMetadata
undecorated c = none

-- A node has a list of nodes.
abbrev tree : Class → Properties
tree c =
    (
      "children",
      property (array_type (arg (property (class_type node) false false) no_args)) false true,
    )
    ∷ []

create_avro_schema_cycle_example :
    create_avro_schema undecorated tree 3 (some "trees") node ≡ err range_error
create_avro_schema_cycle_example =
    create_avro_schema_cycle undecorated tree (λ c. c ≡ node) (λ c e. (refl, inl (inl refl))) 3
      (some "trees") node refl

-- A node has a leaf, and a leaf has a number.
abbrev properties_of : ℕ → Properties
properties_of zero = ("leaf", property (class_type leaf) true false) ∷ []
properties_of (suc n) = ("value", property (plain_type "number") false false) ∷ []

abbrev rank_of : ℕ → ℕ
rank_of zero = 1
rank_of (suc n) = 0

falls : (c : Class) → Falls undecorated (λ d. properties_of d.identity) (λ d. rank_of d.identity) c
falls c = go c.identity
  where
    go :
        (n : ℕ)
        → AllWithin
            (λ (d : Class).
              ((meta : AvroSchemaMetadata) × (undecorated d ≡ some meta))
              ⊎ (rank_of d.identity < rank_of n))
            (properties_of n)
    go zero = (inr (omega arith), tt)
    go (suc n) = (tt, tt)

create_avro_schema_enough_example :
    IsOk (create_avro_schema undecorated (λ d. properties_of d.identity) 2 (some "trees") node)
create_avro_schema_enough_example =
    create_avro_schema_enough undecorated (λ d. properties_of d.identity) (λ d. rank_of d.identity)
      falls 2 (some "trees") node (omega arith)
