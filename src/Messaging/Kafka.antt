-- ===== src/Messaging/Kafka.antt =====
-- packages/messaging/broker/kafka: topic-partition-offsets.ts, topic-partition-offset-tracker.ts
-- and kafka-message-processor.ts. Offsets are natural numbers, as the broker's are.
pub mod Tests
pub mod Offsets
pub mod Message
pub mod Consumer
pub mod Avro
use nest_convoy.Prelude.{
  ℕ, zero, suc, ◌+◌, String, Bool, true, false, Option, none, some, List, [], ◌∷◌, ◌++◌, map,
  if◌then◌else◌, ◌==◌, nat_eq, leb, find, filter,
}
use nest_convoy.Prelude.Effect.{M, ◌>>=◌, ◌>>◌, pure, all_each}

pub record TopicPartitionOffset : Type 0 where
  pub topic : String
  pub partition : ℕ
  pub offset : ℕ

pub record TopicPartitionOffsets : Type 0 where
  pub unprocessed : List ℕ
  pub processed : List ℕ

abbrev pub no_offsets : TopicPartitionOffsets
no_offsets = record { unprocessed = []; processed = [] }

unfoldable pub includes : ℕ → List ℕ → Bool
includes x [] = false
includes x (y ∷ ys) = if nat_eq x y then true else includes x ys

unfoldable pub note_unprocessed : ℕ → TopicPartitionOffsets → TopicPartitionOffsets
note_unprocessed offset t = record t { unprocessed = t.unprocessed ++ offset ∷ [] }

unfoldable pub note_processed : ℕ → TopicPartitionOffsets → TopicPartitionOffsets
note_processed offset t = record t { processed = t.processed ++ offset ∷ [] }

unfoldable pub to_commit : TopicPartitionOffsets → Option ℕ
to_commit t = find (λ x. includes x t.processed) t.unprocessed

unfoldable pub note_committed : ℕ → TopicPartitionOffsets → TopicPartitionOffsets
note_committed offset t = record {
  unprocessed = filter (λ x. leb offset x) t.unprocessed;
  processed = filter (λ x. leb offset x) t.processed;
}

unfoldable pub get_pending : TopicPartitionOffsets → List ℕ
get_pending t = filter (λ x. includes x t.processed) t.unprocessed

-- The array of a topic, by partition. A partition that was skipped is a hole, `none`.
abbrev pub Partitions : Type 0
Partitions = List (Option TopicPartitionOffsets)

abbrev pub Tracker : Type 0
Tracker = List (String × Partitions)

put_partition : ℕ → TopicPartitionOffsets → Partitions → Partitions
put_partition zero t [] = some t ∷ []
put_partition zero t (_ ∷ ps) = some t ∷ ps
put_partition (suc n) t [] = none ∷ put_partition n t []
put_partition (suc n) t (p ∷ ps) = p ∷ put_partition n t ps

get_partition : ℕ → Partitions → Option TopicPartitionOffsets
get_partition n [] = none
get_partition zero (p ∷ ps) = p
get_partition (suc n) (p ∷ ps) = get_partition n ps

pub put_state : String → ℕ → TopicPartitionOffsets → Tracker → Tracker
unfolding put_partition
put_state topic n t [] = (topic, put_partition n t []) ∷ []
put_state topic n t ((j, ps) ∷ rest) =
    if j == topic then (j, put_partition n t ps) ∷ rest else (j, ps) ∷ put_state topic n t rest

pub get_state : String → ℕ → Tracker → Option TopicPartitionOffsets
unfolding get_partition
get_state topic n [] = none
get_state topic n ((j, ps) ∷ rest) =
    if j == topic then get_partition n ps else get_state topic n rest

abbrev pub or_new : Option TopicPartitionOffsets → TopicPartitionOffsets
or_new none = no_offsets
or_new (some t) = t

-- `fetch` and a method of what it returns, which changes the object in place.
pub update_state : (TopicPartitionOffsets → TopicPartitionOffsets) → String → ℕ → Tracker → Tracker
update_state f topic n k = put_state topic n (f (or_new (get_state topic n k))) k

pub tracker_note_unprocessed : TopicPartitionOffset → Tracker → Tracker
tracker_note_unprocessed o = update_state (note_unprocessed o.offset) o.topic o.partition

pub tracker_note_processed : TopicPartitionOffset → Tracker → Tracker
tracker_note_processed o = update_state (note_processed o.offset) o.topic o.partition

pub tracker_note_committed : List TopicPartitionOffset → Tracker → Tracker
tracker_note_committed [] k = k
tracker_note_committed (o ∷ os) k =
    tracker_note_committed os (update_state (note_committed o.offset) o.topic o.partition k)

-- `map` and `filter` pass over the holes of an array.
partition_commits : String → ℕ → Partitions → List TopicPartitionOffset
partition_commits topic n [] = []
partition_commits topic n (none ∷ ps) = partition_commits topic (suc n) ps
partition_commits topic n (some t ∷ ps) =
    let rest = partition_commits topic (suc n) ps in
    elim (to_commit t) [
      | none ↦ rest
      | some offset ↦ record { topic = topic; partition = n; offset = offset + 1 } ∷ rest
    ]

pub offsets_to_commit : Tracker → List TopicPartitionOffset
unfolding partition_commits
offsets_to_commit [] = []
offsets_to_commit ((topic, ps) ∷ rest) = partition_commits topic 0 ps ++ offsets_to_commit rest

-- `KafkaMessageProcessor.process`: every handler sees the message between the two notes, whatever the
-- others throw. The tracker
-- is a part of the state; `track` changes it.
pub process_message :
    {S Msg : Type 0}
    → ((Tracker → Tracker) → M S (Unit {0}))
    → List (Msg → M S (Unit {0}))
    → Msg
    → TopicPartitionOffset
    → M S TopicPartitionOffset
process_message {S} {Msg} track handlers m o =
    track (tracker_note_unprocessed o)
    >> all_each (λ (h : Msg → M S (Unit {0})). h m) handlers
    >> track (tracker_note_processed o)
    >> pure o
