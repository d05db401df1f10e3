-- ===== src/Events/Snapshot.antt =====
-- packages/events/aggregate/snapshot/snapshot-triggering-events.ts: the highest offset of the
-- events that a snapshot holds the effects of, for each topic and partition.
pub mod Context
pub mod Laws
pub mod Serialize
use nest_convoy.Prelude.{
  Text, codes, ℕ, ◌≡◌, refl, Bool, true, false, List, [], ◌∷◌, ◌++◌, if◌then◌else◌, Option, none,
  some, ltb, leb, map, filter,
}
use nest_convoy.Prelude.Dict.{lookup, insert, list_key, option_key, nat_key}
use nest_convoy.Prelude.Result.{Result, ok, err, ◌>>=◌, ◌>>◌}
use nest_convoy.Common.Exceptions.{type_error, duplicate_triggering_event}
use nest_convoy.Events.Snapshot.Context.{DecodedEtpoContext, decode, event_token, is_etpo_event}

abbrev pub PartitionOffsets : Type 0
PartitionOffsets = List (Option ℕ × ℕ)

abbrev pub TopicPartitionOffsets : Type 0
TopicPartitionOffsets = List (Text × PartitionOffsets)

-- `if (maxOffset == null || offset > maxOffset) pos.set(partition, offset)`.
abbrev pub raise : Option ℕ → ℕ → PartitionOffsets → Option ℕ → PartitionOffsets
raise p o pos none = insert p o pos
raise p o pos (some m) = if ltb m o then insert p o pos else pos

-- The offsets of a topic with one more event: a topic that is not known yet has none.
abbrev pub note : DecodedEtpoContext → Option PartitionOffsets → PartitionOffsets
note d none = (d.partition, d.offset) ∷ []
note d (some pos) = raise d.partition d.offset pos (lookup d.partition pos)

unfoldable pub add_context : DecodedEtpoContext → TopicPartitionOffsets → TopicPartitionOffsets
add_context d s = insert d.topic (note d (lookup d.topic s)) s

-- `const { topic, partition, offset } = decode(triggeringEvent)!`.
abbrev decoded : Option DecodedEtpoContext → Result DecodedEtpoContext
decoded none = err type_error
decoded (some d) = ok d

unfoldable pub add_event : Text → TopicPartitionOffsets → Result TopicPartitionOffsets
add_event token s = decode token >>= λ d. decoded d >>= λ c. ok (add_context c s)

unfoldable pub add_events : List Text → TopicPartitionOffsets → Result TopicPartitionOffsets
add_events [] s = ok s
add_events (t ∷ ts) s = add_event t s >>= add_events ts

abbrev pub partition_offset : Option ℕ → Option PartitionOffsets → Option ℕ
partition_offset p none = none
partition_offset p (some pos) = lookup p pos

-- `this.topicPartitionOffsets.get(topic)?.get(partition)`.
unfoldable pub max_offset : DecodedEtpoContext → TopicPartitionOffsets → Option ℕ
max_offset d s = partition_offset d.partition (lookup d.topic s)

unfoldable pub check_for_duplicate_event :
    DecodedEtpoContext → TopicPartitionOffsets → Result (Unit {0})
check_for_duplicate_event d s = elim (max_offset d s) [
  | none ↦ ok tt
  | some m ↦ if leb d.offset m then err duplicate_triggering_event else ok tt
]

abbrev events_or_none : Option (List Text) → List Text
events_or_none none = []
events_or_none (some ts) = ts

-- The arguments: the triggering events of the snapshot before, and the token of the event.
unfoldable pub check_snapshot_for_duplicate_event : Option (List Text) → Text → Result (Unit {0})
check_snapshot_for_duplicate_event none token = ok tt
check_snapshot_for_duplicate_event (some ts) token = decode token >>= λ d. elim d [
  | none ↦ ok tt
  | some tpo ↦ add_events ts [] >>= check_for_duplicate_event tpo
]

abbrev add_if_etpo : Option Text → TopicPartitionOffsets → Result TopicPartitionOffsets
add_if_etpo none s = ok s
add_if_etpo (some token) s = if is_etpo_event token then add_event token s else ok s

-- `create(events, eventContext, previousSnapshot)`: of the events their triggers, of the context its
-- token, of the snapshot its triggering events.
unfoldable pub create : List Text → Option Text → Option (List Text) → Result TopicPartitionOffsets
create triggers context previous = do
  s ← add_events (events_or_none previous) []
  s ← add_events (filter is_etpo_event triggers) s
  add_if_etpo context s

unfoldable pub is_empty : TopicPartitionOffsets → Bool
is_empty [] = true
is_empty (_ ∷ _) = false

abbrev pub serialize_offsets : Text → PartitionOffsets → List Text
serialize_offsets t [] = []
serialize_offsets t ((p, o) ∷ pos) =
    event_token (record { context_id = codes "????"; topic = t; partition = p; offset = o })
    ∷ serialize_offsets t pos

unfoldable pub serialize : TopicPartitionOffsets → List Text
serialize [] = []
serialize ((t, pos) ∷ s) = serialize_offsets t pos ++ serialize s
