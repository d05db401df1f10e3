-- ===== src/Events/Access.antt =====
-- packages/events/aggregate: crud/aggregate-crud-access.ts, crud/interfaces.ts, interfaces.ts,
-- loaded-events.ts, save-update-result.ts and the tables of the folder entities. What the tables of
-- the object mapper and the generator of identifiers do is a parameter. A row that is loaded has a
-- `null` for a trigger that it was not given, which no token is equal to.
pub mod Locking
use nest_convoy.Prelude.{
  Text, ℕ, String, ◌==◌, Bool, true, false, Option, none, some, List, [], ◌∷◌, map, not, ◌&&◌,
  if◌then◌else◌, nat_eq, filter,
}
use nest_convoy.Prelude.Dict.{list_key, nat_key, Key}
use nest_convoy.Prelude.Result.{Result, ok, err}
use nest_convoy.Prelude.Effect.{M, ◌>>=◌, ◌>>◌, pure, throw, lift, map_each, when}
use nest_convoy.Common.Exceptions.{
  type_error, optimistic_locking, duplicate_triggering_event, entity_not_found,
}
use nest_convoy.Events.Schema.{Class, EventMetadata, EventIdTypeAndData}
use nest_convoy.Events.Snapshot.{TopicPartitionOffsets, create}

pub record EventTypeAndData (J : Type 0) : Type 0 where
  pub new_type : Class
  pub new_data : J
  pub new_metadata : Option EventMetadata

pub record EntitiesEntity : Type 0 where
  pub id : String
  pub entity_class : String
  pub version : String

pub record EventsEntity (J : Type 0) : Type 0 where
  pub event_id : String
  pub event_type : Option String
  pub event_data : J
  pub triggering_event : Option Text
  pub metadata : Option EventMetadata
  pub entity_type : String
  pub entity_id : String

pub record SnapshotsEntity (J : Type 0) : Type 0 where
  pub snapshot_entity_type : String
  pub snapshot_entity_id : String
  pub entity_version : String
  -- `none` where the row before, which it is copied of, is missing
  pub snapshot_type : Option String
  pub snapshot_json : Option J
  pub triggering_events : TopicPartitionOffsets

-- `SerializedSnapshotWithVersion`: the JSON text stands as the object that it is the text of.
pub record SerializedSnapshot (J : Type 0) : Type 0 where
  pub serialized_type : Option String
  pub json : Option J
  pub serialized_version : String

pub record LoadedEvents (J : Type 0) : Type 0 where
  pub events : List (EventIdTypeAndData J)
  pub snapshot : Option (SerializedSnapshot J)

pub record EntityIdVersionAndEventIds : Type 0 where
  pub saved_id : String
  pub saved_version : String
  pub event_ids : List String

pub record PublishableEvents (J : Type 0) : Type 0 where
  pub publishable_type : Class
  pub publishable_id : String
  pub events_with_ids : List (EventIdTypeAndData J)

abbrev pub SaveUpdateResult : Type 0 → Type 0
SaveUpdateResult J = EntityIdVersionAndEventIds × PublishableEvents J

pub record SaveOptions : Type 0 where
  pub save_metadata : Option EventMetadata
  pub save_trigger : Option Text
  pub save_entity_id : Option String

-- `I` is the type of the interceptors.
pub record UpdateOptions (J I : Type 0) : Type 0 where
  pub update_metadata : Option EventMetadata
  pub update_trigger : Option Text
  pub update_snapshot : Option J
  pub interceptor : Option I

-- What a query's condition on a type is given: `update` and its queries pass the class itself.
pub data TypeParameter : Type 0 where
  name_of : String → TypeParameter
  class_of : Class → TypeParameter

-- What stands for a version where one is asked for: a text, or what a caller hands on in its place.
pub data VersionParameter (J : Type 0) : Type 0 where
  version_text : String → VersionParameter J
  version_object : J → VersionParameter J
  no_version : VersionParameter J

-- `update_entity` is the update whose conditions are an identifier, a type and a version; it sets the
-- version to the last argument and counts the rows. `create_events` is `manager.create` of each in a
-- transaction.
pub record Tables (S J : Type 0) : Type 0 where
  pub uuid : M S String
  pub save_entity : EntitiesEntity → M S EntitiesEntity
  pub update_entity : String → TypeParameter → VersionParameter J → String → M S (Option ℕ)
  pub create_events : List (EventsEntity J) → M S (Unit {0})
  pub find_events : TypeParameter → String → M S (List (EventsEntity J))
  pub find_events_after : TypeParameter → String → String → M S (List (EventsEntity J))
  pub find_snapshot : String → String → M S (Option (SnapshotsEntity J))
  pub last_snapshot : TypeParameter → String → M S (Option (SnapshotsEntity J))
  pub save_snapshot : SnapshotsEntity J → M S (Unit {0})

abbrev some_trigger : {J : Type 0} → EventsEntity J → List Text → List Text
some_trigger e ts = elim e.triggering_event [ none ↦ ts | some t ↦ t ∷ ts ]

-- The triggers of events that have one: `create` passes over the others.
unfoldable pub triggers_of : {J : Type 0} → List (EventsEntity J) → List Text
triggers_of [] = []
triggers_of (e ∷ es) = some_trigger e (triggers_of es)

-- `eventType: class {}`: a class of its own for each event, named after the property. The identity
-- of a fresh class is that of no class of the application, here the number 0.
abbrev pub anonymous : Class
anonymous = record { identity = 0; name = "eventType" }

abbrev pub loaded_event : {J : Type 0} → EventsEntity J → EventIdTypeAndData J
loaded_event e = record {
  event_id = e.event_id;
  event_type = anonymous;
  event_data = e.event_data;
  metadata = e.metadata;
}

abbrev is_none {ℓ} : {A : Type ℓ} → Option A → Bool
is_none none = true
is_none (some _) = false

abbrev pub is_some {ℓ} : {A : Type ℓ} → Option A → Bool
is_some none = false
is_some (some _) = true

abbrev no_events : {J : Type 0} → List (EventsEntity J) → Bool
no_events [] = true
no_events (_ ∷ _) = false

abbrev same_token : Option Text → Option Text → Bool
same_token (some a) (some b) = list_key.beq a b
same_token _ _ = false

-- `eventsAndTriggers.find(et => options?.triggeringEvent?.eventToken === et.triggeringEvent)`.
unfoldable pub any_triggered : {J : Type 0} → Option Text → List (EventsEntity J) → Bool
any_triggered token [] = false
any_triggered token (e ∷ es) =
    if same_token token e.triggering_event then true else any_triggered token es

abbrev pub row :
    {J : Type 0} → Option Text → String → String → EventIdTypeAndData J → EventsEntity J
row trigger type id e = record {
  event_id = e.event_id;
  event_type = some e.event_type.name;
  event_data = e.event_data;
  triggering_event = trigger;
  metadata = e.metadata;
  entity_type = type;
  entity_id = id;
}

-- `eventsWithIds[eventsWithIds.length - 1].eventId`.
unfoldable pub last_event_id : {J : Type 0} → List (EventIdTypeAndData J) → Result String
last_event_id [] = err type_error
last_event_id (e ∷ []) = ok e.event_id
last_event_id (e ∷ f ∷ es) = last_event_id (f ∷ es)

abbrev pub save_update_result :
    {J : Type 0} → Class → String → String → List (EventIdTypeAndData J) → SaveUpdateResult J
save_update_result {J} type id version es = (
  record {
    saved_id = id;
    saved_version = version;
    event_ids = map (λ (e : EventIdTypeAndData J). e.event_id) es;
  },
  record { publishable_type = type; publishable_id = id; events_with_ids = es },
)

module _ {S J : Type 0} (tables : Tables S J) where
  unfoldable pub to_event_id : EventTypeAndData J → M S (EventIdTypeAndData J)
  to_event_id e = do
    id ← tables.uuid
    pure (record {
      event_id = id;
      event_type = e.new_type;
      event_data = e.new_data;
      metadata = e.new_metadata;
    })

  -- `options?.entityId || uuidv4()`.
  given_or_uuid : Option String → M S String
  given_or_uuid none = tables.uuid
  given_or_uuid (some id) = if id == "" then tables.uuid else pure id

  pub save : Class → List (EventTypeAndData J) → SaveOptions → M S (SaveUpdateResult J)
  save aggregate_class events options = do
    with_ids ← map_each to_event_id events
    id ← given_or_uuid options.save_entity_id
    version ← lift (last_event_id with_ids)
    entity ←
        tables.save_entity
          (record { id = id; entity_class = aggregate_class.name; version = version })
    tables.create_events (map (row options.save_trigger aggregate_class.name id) with_ids)
    pure (save_update_result aggregate_class entity.id entity.version with_ids)

  -- The snapshot, if there is one, and the events behind it or all of them.
  abbrev load_events : String → String → Option (SnapshotsEntity J) → M S (List (EventsEntity J))
  load_events type id none = tables.find_events (name_of type) id
  load_events type id (some snapshot) =
      tables.find_events_after (name_of type) id snapshot.entity_version

  abbrev serialized : Option (SnapshotsEntity J) → Option (SerializedSnapshot J)
  serialized none = none
  serialized (some snapshot) = some (record {
    serialized_type = snapshot.snapshot_type;
    json = snapshot.snapshot_json;
    serialized_version = snapshot.entity_version;
  })

  -- The checks behind the loading.
  abbrev loaded_or_missing :
      String
      → Option Text
      → Option (SnapshotsEntity J)
      → List (EventsEntity J)
      → Result (LoadedEvents J)
  loaded_or_missing id trigger snapshot events =
      if any_triggered trigger events
      then err duplicate_triggering_event
      else if is_none snapshot && no_events events
      then err (entity_not_found id)
      else ok (record { events = map loaded_event events; snapshot = serialized snapshot })

  unfoldable pub find : Class → String → Option Text → M S (LoadedEvents J)
  find aggregate_type id trigger = do
    snapshot ← tables.find_snapshot aggregate_type.name id
    events ← load_events aggregate_type.name id snapshot
    lift (loaded_or_missing id trigger snapshot events)

  abbrev pub old_events : Class → String → Option (SnapshotsEntity J) → M S (List (EventsEntity J))
  old_events type id none = tables.find_events (class_of type) id
  old_events type id (some snapshot) =
      tables.find_events_after (class_of type) id snapshot.entity_version

  -- The type and the content of the new snapshot are those of the one before, and of the triggers
  -- the events behind that one are looked at only.
  unfoldable pub write_snapshot : Class → String → String → M S (Unit {0})
  write_snapshot type id version = do
    previous ← tables.last_snapshot (class_of type) id
    events ← old_events type id previous
    triggers ← lift (create (triggers_of events) none none)
    tables.save_snapshot (record {
      snapshot_entity_type = type.name;
      snapshot_entity_id = id;
      entity_version = version;
      snapshot_type = elim previous [ none ↦ none | some p ↦ p.snapshot_type ];
      snapshot_json = elim previous [ none ↦ none | some p ↦ p.snapshot_json ];
      triggering_events = triggers;
    })

  -- `result?.affected != 1`.
  abbrev pub one_row : Option ℕ → Bool
  one_row none = false
  one_row (some n) = nat_eq n 1

  -- The part of `update` behind the check of the version.
  abbrev pub write_update :
      {I : Type 0}
      → Class
      → String
      → String
      → List (EventIdTypeAndData J)
      → UpdateOptions J I
      → M S (SaveUpdateResult J)
  write_update type id version with_ids options =
      when (is_some options.update_snapshot) (write_snapshot type id version)
      >> tables.create_events (map (row options.update_trigger type.name id) with_ids)
      >> pure (save_update_result type id version with_ids)

  abbrev pub check_rows : Option ℕ → M S (Unit {0})
  check_rows affected = if one_row affected then pure tt else throw optimistic_locking

  unfoldable pub update :
      {I : Type 0}
      → Class
      → String
      → VersionParameter J
      → List (EventTypeAndData J)
      → UpdateOptions J I
      → M S (SaveUpdateResult J)
  unfolding to_event_id
  update type id entity_version events options = do
    with_ids ← map_each to_event_id events
    version ← lift (last_event_id with_ids)
    affected ← tables.update_entity id (class_of type) entity_version version
    check_rows affected
    write_update type id version with_ids options
