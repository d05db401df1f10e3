-- ===== src/Messaging/Kafka/Consumer.antt =====
-- packages/messaging/broker/kafka: kafka-message-consumer.ts and kafka-message-producer.ts. The
-- client library is a parameter; `W` is the state that it and the handlers work on. The handlers of
-- one message, and the topics of one subscription, which the code starts together, come one after
-- another. What the client's `run` is given is `each_message`.
pub mod Tracking
pub mod Commits
use nest_convoy.Prelude.{
  ℕ, String, codes, Text, Bool, true, Option, none, some, List, [], ◌∷◌, ◌++◌, ◌==◌, map,
  if◌then◌else◌,
}
use nest_convoy.Prelude.Dict.{lookup, insert, string_key}
use nest_convoy.Prelude.Result.{Result}
use nest_convoy.Prelude.Effect.{M, ◌>>=◌, ◌>>◌, pure, throw, get, modify, for_each, map_each}
use nest_convoy.Prelude.Numbers.{print_nat}
use nest_convoy.Common.Exceptions.{runtime}
use nest_convoy.Messaging.Message.{Message}
use nest_convoy.Messaging.Kafka.{
  TopicPartitionOffset, Tracker, process_message, offsets_to_commit, tracker_note_committed,
}
use nest_convoy.Messaging.Kafka.Message.{
  EachMessagePayload, ProducerMessage, Json, Registry, to_producer_message, from_each_message,
}

abbrev pub KafkaMessageHandler : Type 0 → Type 0 → Type 0
KafkaMessageHandler W P = Message P → M W (Unit {0})

-- `TopicPartitionOffsetAndMetadata`.
pub record SerializedOffset : Type 0 where
  pub topic : String
  pub partition : ℕ
  pub offset : Text

pub record KafkaClient (W T : Type 0) : Type 0 where
  pub producer_send : String → List (ProducerMessage T) → M W (Unit {0})
  pub consumer_subscribe : String → Bool → M W (Unit {0})
  pub commit_offsets : List SerializedOffset → M W (Unit {0})

pub record KafkaMessageProcessor (W P : Type 0) : Type 0 where
  pub handlers : List (KafkaMessageHandler W P)
  pub tracker : Tracker

abbrev pub new_processor : {W P : Type 0} → KafkaMessageProcessor W P
new_processor = record { handlers = []; tracker = [] }

unfoldable pub add_handler :
    {W P : Type 0} → KafkaMessageHandler W P → KafkaMessageProcessor W P → KafkaMessageProcessor W P
add_handler handler p = record p { handlers = p.handlers ++ handler ∷ [] }

unfoldable pub serialize_offsets_to_commit : List TopicPartitionOffset → List SerializedOffset
serialize_offsets_to_commit = map (λ (o : TopicPartitionOffset). record {
  topic = o.topic;
  partition = o.partition;
  offset = print_nat o.offset [];
})

-- `processors`, and the state of what is not the consumer's.
pub record ConsumerState (W P : Type 0) : Type 0 where
  pub processors : List (String × KafkaMessageProcessor W P)
  pub world : W

module _ {W P : Type 0} where
  abbrev pub on_world : {A : Type 0} → M W A → M (ConsumerState W P) A
  on_world m s = ((m s.world).0, record s { world = (m s.world).1 })

  abbrev pub on_consumer :
      List (KafkaMessageHandler W P) → List (Message P → M (ConsumerState W P) (Unit {0}))
  on_consumer [] = []
  on_consumer (h ∷ hs) = (λ m. on_world (h m)) ∷ on_consumer hs

  abbrev processor_or_new : Option (KafkaMessageProcessor W P) → KafkaMessageProcessor W P
  processor_or_new none = new_processor
  processor_or_new (some p) = p

  unfoldable pub add_handler_to_processor :
      String → KafkaMessageHandler W P → M (ConsumerState W P) (Unit {0})
  unfolding add_handler
  add_handler_to_processor channel handler = modify λ s. record s {
    processors =
        insert channel (add_handler handler (processor_or_new (lookup channel s.processors)))
          s.processors;
  }

  delete_processor :
      String → List (String × KafkaMessageProcessor W P) → List (String × KafkaMessageProcessor W P)
  delete_processor channel [] = []
  delete_processor channel ((j, p) ∷ ps) =
      if j == channel then ps else (j, p) ∷ delete_processor channel ps

  -- What a subscription returns: the processors go, with the handlers of all subscribers.
  unfoldable pub kafka_unsubscribe : List String → M (ConsumerState W P) (Unit {0})
  unfolding delete_processor
  kafka_unsubscribe topics =
      for_each
        (λ (channel : String). modify λ (s : ConsumerState W P). record s {
          processors = delete_processor channel s.processors;
        })
        topics

  -- A change of the tracker of a processor, which is an object that the map and the caller share.
  unfoldable pub track_processor : String → (Tracker → Tracker) → M (ConsumerState W P) (Unit {0})
  track_processor topic f = modify λ s. elim (lookup topic s.processors) [
    | none ↦ s
    | some p ↦ record s {
      processors = insert topic (record p { tracker = f p.tracker }) s.processors;
    }
  ]

  unfoldable pub topic_tracker : String → ConsumerState W P → Tracker
  topic_tracker topic s = elim (lookup topic s.processors) [ none ↦ [] | some p ↦ p.tracker ]

module _ {W P T : Type 0} (client : KafkaClient W T) (json : Json T P) (to_plain : P → P)
    (registry : Option (Registry W P T)) where
  unfoldable pub kafka_subscribe :
      List String → KafkaMessageHandler W P → M (ConsumerState W P) (Unit {0})
  kafka_subscribe topics handler =
      for_each
        (λ channel.
          on_world (client.consumer_subscribe channel true)
          >> add_handler_to_processor channel handler)
        topics

  unfoldable pub maybe_commit_offsets : String → M (ConsumerState W P) (Unit {0})
  maybe_commit_offsets topic = do
    s ← get
    let tpos = offsets_to_commit (topic_tracker topic s)
    on_world (client.commit_offsets (serialize_offsets_to_commit tpos))
    track_processor topic (tracker_note_committed tpos)

  unfoldable pub run_processor :
      KafkaMessageProcessor W P
      → Message P
      → EachMessagePayload T
      → M (ConsumerState W P) TopicPartitionOffset
  run_processor p message each =
      process_message (track_processor each.topic) (on_consumer p.handlers) message
        (record { topic = each.topic; partition = each.partition; offset = each.offset })

  unfoldable pub each_with_processor :
      EachMessagePayload T → Option (KafkaMessageProcessor W P) → M (ConsumerState W P) (Unit {0})
  each_with_processor each none = throw runtime
  each_with_processor each (some p) = do
    message ← on_world (from_each_message json to_plain registry each)
    run_processor p message each
    maybe_commit_offsets each.topic

  unfoldable pub each_message : EachMessagePayload T → M (ConsumerState W P) (Unit {0})
  unfolding each_with_processor
  each_message each = do s ← get; each_with_processor each (lookup each.topic s.processors)

  -- The messages are made one after another.
  unfoldable pub kafka_send_batch : String → List (Message P) → M W (Unit {0})
  kafka_send_batch destination messages = do
    made ← map_each (to_producer_message json to_plain registry) messages
    client.producer_send destination made

  unfoldable pub kafka_send : String → Message P → M W (Unit {0})
  unfolding kafka_send_batch
  kafka_send destination message = kafka_send_batch destination (message ∷ [])
