-- ===== src/Messaging/Kafka/Consumer/Commits.antt =====
-- What packages/messaging/broker/kafka/kafka-message-consumer.ts commits for a message.
use nest_convoy.Messaging.Kafka.Consumer.Tracking.{
  update-put_state, commits-put_state, Repeats, to_commit-Repeats, committed-Repeats,
}
use nest_convoy.Prelude.{ℕ, ◌+◌, String, Option, some, List, [], ◌∷◌, ◌++◌, ◌≡◌, refl, ap, ◌∙◌}
use nest_convoy.Prelude.Dict.{lookup, insert, string_key, insert-insert, lookup-insert_self}
use nest_convoy.Prelude.Numbers.{print_nat}
use nest_convoy.Prelude.Result.{Result, ok, err}
use nest_convoy.Prelude.Effect.{lift, M, ◌>>=◌, ◌>>◌, all_each, first_error, resume}
use nest_convoy.Messaging.Message.{Message}
use nest_convoy.Messaging.Kafka.{
  pure, TopicPartitionOffset, Tracker, no_offsets, note_unprocessed, note_processed, note_committed,
  update_state, or_new, get_state, put_state, offsets_to_commit, process_message,
  tracker_note_unprocessed, tracker_note_processed, tracker_note_committed,
}
use nest_convoy.Messaging.Kafka.Message.{EachMessagePayload, Json, Registry, from_each_message}
use nest_convoy.Messaging.Kafka.Consumer.{
  KafkaMessageHandler, KafkaClient, KafkaMessageProcessor, ConsumerState, SerializedOffset,
  on_world, on_consumer, serialize_offsets_to_commit, track_processor, topic_tracker,
  maybe_commit_offsets, run_processor, each_message,
}

-- The state after a delivery: the processor's tracker, and what the handlers and the client did.
abbrev pub after :
    {W P : Type 0}
    → String
    → ConsumerState W P
    → KafkaMessageProcessor W P
    → Tracker
    → W
    → ConsumerState W P
after topic s p k w = record {
  processors = insert topic (record p { tracker = k }) s.processors;
  world = w;
}

-- What a delivery leaves when the handlers are through: after an exception the offset is noted as
-- unprocessed, and otherwise the next offset is committed; a commit that fails is thrown on.
module _ {W P T : Type 0} (client : KafkaClient W T) (each : EachMessagePayload T)
    (s : ConsumerState W P) (p : KafkaMessageProcessor W P) (before : List ℕ) where
  abbrev noted : List ℕ → Tracker
  noted processed =
      put_state each.topic each.partition
        (record { unprocessed = before ++ each.offset ∷ []; processed = processed }) p.tracker

  abbrev next_offset : SerializedOffset
  next_offset = record {
    topic = each.topic;
    partition = each.partition;
    offset = print_nat (each.offset + 1) [];
  }

  abbrev pub committed : Result (Unit {0}) × W → Result (Unit {0}) × ConsumerState W P
  committed (ok u, w) =
      (ok tt, after each.topic s p (put_state each.topic each.partition no_offsets p.tracker) w)
  committed (err e, w) = (err e, after each.topic s p (noted (each.offset ∷ [])) w)

  abbrev pub handled : Result (Unit {0}) × W → Result (Unit {0}) × ConsumerState W P
  handled (ok u, w) = committed (client.commit_offsets (next_offset ∷ []) w)
  handled (err e, w) = (err e, after each.topic s p (noted []) w)

track_processor_lem :
    {W P : Type 0} (topic : String) (f : Tracker → Tracker) (s : ConsumerState W P)
    (p : KafkaMessageProcessor W P) (k : Tracker) (w : W)
    → track_processor topic f (after topic s p k w) ≡ (ok tt, after topic s p (f k) w)
unfolding track_processor
track_processor_lem topic f s p k w =
    rw (lookup-insert_self topic (record p { tracker = k }) s.processors) (
      rw (insert-insert topic (record p { tracker = f k }) (record p { tracker = k }) s.processors)
        refl)

topic_tracker_lem :
    {W P : Type 0} (topic : String) (s : ConsumerState W P) (p : KafkaMessageProcessor W P)
    (k : Tracker) (w : W)
    → topic_tracker topic (after topic s p k w) ≡ k
unfolding topic_tracker
topic_tracker_lem topic s p k w =
    rw (topic_tracker, lookup-insert_self topic (record p { tracker = k }) s.processors) refl

all_each-on_consumer :
    {W P : Type 0} (hs : List (KafkaMessageHandler W P)) (m : Message P) (s : ConsumerState W P)
    → all_each (λ (h : Message P → M (ConsumerState W P) (Unit {0})). h m) (on_consumer hs) s
      ≡ on_world (all_each (λ (h : KafkaMessageHandler W P). h m) hs) s
unfolding all_each
all_each-on_consumer [] m s = refl
all_each-on_consumer {W} {P} (h ∷ hs) m s =
    go (h m s.world).0 (all_each-on_consumer hs m (record s { world = (h m s.world).1 }))
  where
    rest : W → Result (Unit {0}) × W
    rest = all_each (λ (g : KafkaMessageHandler W P). g m) hs

    lifted : ConsumerState W P → Result (Unit {0}) × ConsumerState W P
    lifted = all_each (λ (g : Message P → M (ConsumerState W P) (Unit {0})). g m) (on_consumer hs)

    go :
        (r : Result (Unit {0}))
        → lifted (record s { world = (h m s.world).1 })
          ≡ on_world rest (record s { world = (h m s.world).1 })
        → first_error r (lifted (record s { world = (h m s.world).1 })) ≡ (
          (first_error r (rest (h m s.world).1)).0,
          record s { world = (first_error r (rest (h m s.world).1)).1 },
        )
    go (ok u) ih = ih
    go (err e) ih = ap (λ (x : Result (Unit {0}) × ConsumerState W P). (err e, x.1)) ih

-- The processor of the topic waits for this offset alone on its partition, which earlier deliveries
-- failed to process, and has nothing else to commit: the other partitions that it knows may wait
-- for offsets too.
abbrev pub Waits : String → ℕ → List ℕ → Tracker → Type 0
Waits topic n before k =
    (or_new (get_state topic n k) ≡ record { unprocessed = before; processed = [] })
    × (offsets_to_commit k ≡ [])

noted_lem :
    (topic : String) (n offset : ℕ) (before : List ℕ) (k : Tracker)
    → Waits topic n before k
    → update_state (note_unprocessed offset) topic n k
      ≡ put_state topic n (record { unprocessed = before ++ offset ∷ []; processed = [] }) k
unfolding note_unprocessed update_state
noted_lem topic n offset before k (known, quiet) = rw known refl

first_track :
    {W P : Type 0} (topic : String) (f : Tracker → Tracker) (s : ConsumerState W P)
    (p : KafkaMessageProcessor W P) (w : W)
    → lookup topic s.processors ≡ some p
    → track_processor topic f (record s { world = w }) ≡ (ok tt, after topic s p (f p.tracker) w)
unfolding track_processor
first_track topic f s p w h = rw (track_processor, h) refl

module _ {W P T : Type 0} (client : KafkaClient W T) (json : Json T P) (to_plain : P → P)
    (registry : Option (Registry W P T)) where
  commit_lem :
      (each : EachMessagePayload T) (s : ConsumerState W P) (p : KafkaMessageProcessor W P)
      (before : List ℕ) (w : W)
      → offsets_to_commit p.tracker ≡ []
      → Repeats each.offset before
      → maybe_commit_offsets client json to_plain registry each.topic
          (after each.topic s p (noted client each s p before (each.offset ∷ [])) w)
        ≡ committed client each s p before
            (client.commit_offsets (next_offset client each s p before ∷ []) w)
  unfolding maybe_commit_offsets serialize_offsets_to_commit tracker_note_committed
  commit_lem each s p before w quiet repeats =
      rw
        (
          topic_tracker_lem each.topic s p (noted client each s p before (each.offset ∷ [])) w,
          commits-put_state each.topic each.partition _ each.offset p.tracker quiet
              (to_commit-Repeats each.offset before repeats),
        )
        (go (client.commit_offsets (next_offset client each s p before ∷ []) w))
    where
      go :
          (r : Result (Unit {0}) × W)
          → resume
              (λ _.
                track_processor each.topic
                  (update_state (note_committed (each.offset + 1)) each.topic each.partition))
              r.0
              (after each.topic s p (noted client each s p before (each.offset ∷ [])) r.1)
            ≡ committed client each s p before r
      go (ok u, w') =
          track_processor_lem each.topic
            (update_state (note_committed (each.offset + 1)) each.topic each.partition) s p _ w'
          ∙ ap (λ k. pure tt (after each.topic s p k w'))
              (update-put_state (note_committed (each.offset + 1)) each.topic each.partition _
                  p.tracker
                ∙ ap (λ t. put_state each.topic each.partition t p.tracker)
                    (committed-Repeats each.offset before repeats))
      go (err e, w') = refl

  -- What a delivery does to the offsets, by what the handlers and the commit do. The processor of
  -- the topic has nothing else to commit and knows no other offsets of this partition than failed
  -- deliveries of this one, and the message can be read; other partitions may wait for offsets of
  -- theirs. Every handler runs. If one throws, the first exception is thrown on, nothing is
  -- committed, and the offset waits for its next delivery. Otherwise the one offset that is
  -- committed is the next one of that topic and partition, of which the processor then knows no
  -- offset any more; an exception of the commit is thrown on, and the offset stays noted as
  -- processed. What the processor knows of other partitions stays.
  pub each_message_lem :
      (each : EachMessagePayload T) (s : ConsumerState W P) (p : KafkaMessageProcessor W P)
      (before : List ℕ) {m : Message P} {w : W}
      → lookup each.topic s.processors ≡ some p
      → Repeats each.offset before
      → Waits each.topic each.partition before p.tracker
      → from_each_message json to_plain registry each s.world ≡ (ok m, w)
      → each_message client json to_plain registry each s
        ≡ handled client each s p before
            (all_each (λ (h : KafkaMessageHandler W P). h m) p.handlers w)
  unfolding each_message run_processor process_message tracker_note_unprocessed
      tracker_note_processed
  each_message_lem each s p before {m} {w} found repeats waits from =
      rw
        (
          found,
          from,
          first_track each.topic
              (update_state (note_unprocessed each.offset) each.topic each.partition) s p w found,
          noted_lem each.topic each.partition each.offset before p.tracker waits,
          all_each-on_consumer p.handlers m _,
        )
        (go (all_each (λ (h : KafkaMessageHandler W P). h m) p.handlers w))
    where
      processed_once :
          note_processed each.offset
            (record { unprocessed = before ++ each.offset ∷ []; processed = [] })
          ≡ record { unprocessed = before ++ each.offset ∷ []; processed = each.offset ∷ [] }
      processed_once = unfold note_processed in refl

      go :
          (r : Result (Unit {0}) × W)
          → (lift r.0
                >> track_processor each.topic
                    (update_state (note_processed each.offset) each.topic each.partition)
                >> pure {A = TopicPartitionOffset} (record {
                  topic = each.topic;
                  partition = each.partition;
                  offset = each.offset;
                })
                >>= λ _. maybe_commit_offsets client json to_plain registry each.topic)
              (after each.topic s p (noted client each s p before []) r.1)
            ≡ handled client each s p before r
      go (ok u, w') =
          rw
            (
              track_processor_lem each.topic
                  (update_state (note_processed each.offset) each.topic each.partition) s p
                  (noted client each s p before []) w',
              update-put_state (note_processed each.offset) each.topic each.partition
                  (record { unprocessed = before ++ each.offset ∷ []; processed = [] }) p.tracker,
              processed_once,
            )
            (commit_lem each s p before w' waits.1 repeats)
      go (err x, w') = refl
