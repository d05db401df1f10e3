-- ===== src/Events/Store.antt =====
-- packages/events/aggregate: crud/aggregate-store-crud.ts, crud/aggregate-crud-mapping.ts and
-- snapshot/snapshot-manager.ts. `A` is the type of the values that stand for aggregates: references
-- to objects, and `undefined`. What the application's classes, its snapshot strategies and the
-- serialiser do is a parameter; an event is an object of a class with a plain form.
use nest_convoy.Prelude.{Text, String, ◌==◌, Option, none, some, List, [], ◌∷◌, map, if◌then◌else◌}
use nest_convoy.Prelude.Dict.{lookup, insert, string_key}
use nest_convoy.Prelude.Result.{Result}
use nest_convoy.Prelude.Effect.{M, ◌>>=◌, pure, throw, lift, map_each}
use nest_convoy.Common.Exceptions.{error, syntax_error}
use nest_convoy.Events.Aggregates.{
  AggregateMethods, MissingApplyEventMethodStrategy, apply_events, recreate_aggregate,
}
use nest_convoy.Events.Schema.{
  Class, EventMetadata, EventIdTypeAndData, Schemas, current_schema_metadata,
  upcast_aggregate_events,
}
use nest_convoy.Events.Access.{
  Tables, EventTypeAndData, EntityIdVersionAndEventIds, SerializedSnapshot, SaveOptions,
  UpdateOptions, VersionParameter, version_text, version_object, no_version,
}
use nest_convoy.Events.Crud.{Subscriptions}
use nest_convoy.Events.Crud

pub record EventInstance (J : Type 0) : Type 0 where
  pub event_class : Class
  pub plain : J

pub record EventWithMetadata (J : Type 0) : Type 0 where
  pub event : EventInstance J
  pub event_id : String
  pub metadata : Option EventMetadata

-- What the manager's map has for the name of an aggregate.
pub record SnapshotStrategy (S A J : Type 0) : Type 0 where
  pub snapshot_class : Class
  pub possible_snapshot :
      A → List (EventWithMetadata J) → List (EventInstance J) → Option String → M S (Option J)
  pub recreate : Class → J → M S A

-- `validated_plain_to_class` is that of the serialiser. The methods of `undefined` throw.
pub record Application (S A J : Type 0) : Type 0 where
  pub methods : AggregateMethods S A (EventInstance J)
  pub strategy : MissingApplyEventMethodStrategy S A
  pub new_object : Class → M S A
  pub constructor : A → Class
  pub undefined : A
  pub validated_plain_to_class : Class → J → Result J
  pub snapshot_strategies : List (String × SnapshotStrategy S A J)

pub record EntityWithMetadata (A J : Type 0) : Type 0 where
  pub snapshot_version : Option String
  pub old_events : List (EventWithMetadata J)
  pub entity_version : VersionParameter J
  pub entity_id : String
  pub entity : A

abbrev pub empty_if_none : Option EventMetadata → EventMetadata
empty_if_none none = []
empty_if_none (some m) = m

-- `{ ...a, ...b }`.
abbrev pub spread : EventMetadata → EventMetadata → EventMetadata
spread a [] = a
spread a ((k, v) ∷ b) = spread (insert k v a) b

abbrev add_schema : Option EventMetadata → EventMetadata → EventMetadata
add_schema none m = m
add_schema (some schema) m = spread schema m

unfoldable pub to_event_type_and_data :
    {J : Type 0} → Option EventMetadata → EventInstance J → EventTypeAndData J
to_event_type_and_data m e = record {
  new_type = e.event_class;
  new_data = e.plain;
  new_metadata = some (empty_if_none m);
}

module _ {S J : Type 0} (schemas : Schemas J) where
  unfoldable pub with_schema_metadata : Class → Option EventMetadata → M S EventMetadata
  with_schema_metadata type m = do
    schema ← lift (current_schema_metadata type schemas)
    pure (add_schema schema (empty_if_none m))

  -- `options && withSchemaMetadata(type, options.eventMetadata)`, of the options' metadata.
  unfoldable pub serialized_metadata :
      Class → Option (Option EventMetadata) → M S (Option EventMetadata)
  serialized_metadata type none = pure none
  serialized_metadata type (some m) = with_schema_metadata type m >>= λ w. pure (some w)

abbrev pub save_options : Option SaveOptions → SaveOptions
save_options none = record { save_metadata = none; save_trigger = none; save_entity_id = none }
save_options (some o) = o

abbrev pub update_options : {J I : Type 0} → Option (UpdateOptions J I) → UpdateOptions J I
update_options none = record {
  update_metadata = none;
  update_trigger = none;
  update_snapshot = none;
  interceptor = none;
}
update_options (some o) = o

abbrev metadata_of_save : Option SaveOptions → Option (Option EventMetadata)
metadata_of_save none = none
metadata_of_save (some o) = some o.save_metadata

abbrev metadata_of_update :
    {J I : Type 0} → Option (UpdateOptions J I) → Option (Option EventMetadata)
metadata_of_update none = none
metadata_of_update (some o) = some o.update_metadata

-- `events.length ? events[events.length - 1] : snapshot?.entityVersion`: the last event, not its
-- identifier.
abbrev last_or : {J : Type 0} → VersionParameter J → List (EventWithMetadata J) → VersionParameter J
last_or v [] = v
last_or v (e ∷ es) = last_or (version_object e.event.plain) es

abbrev snapshot_version_of : {J : Type 0} → Option (SerializedSnapshot J) → Option String
snapshot_version_of none = none
snapshot_version_of (some s) = some s.serialized_version

abbrev version_or_none : {J : Type 0} → Option String → VersionParameter J
version_or_none none = no_version
version_or_none (some v) = version_text v

module _ {S A J : Type 0} (app : Application S A J) where
  -- `toEventWithMetadata`.
  unfoldable pub to_event_with_metadata : EventIdTypeAndData J → M S (EventWithMetadata J)
  to_event_with_metadata e = do
    json ← lift (app.validated_plain_to_class e.event_type e.event_data)
    pure (record {
      event = record { event_class = e.event_type; plain = json };
      event_id = e.event_id;
      metadata = e.metadata;
    })

  -- The class of a snapshot's name, among those of the strategies.
  unfoldable pub find_snapshot_class :
      Option String → List (String × SnapshotStrategy S A J) → Option Class
  find_snapshot_class name [] = none
  find_snapshot_class none (_ ∷ strategies) = find_snapshot_class none strategies
  find_snapshot_class (some name) ((_, s) ∷ strategies) =
      if s.snapshot_class.name == name
      then some s.snapshot_class
      else find_snapshot_class (some name) strategies

  -- A content that is missing is no JSON text.
  abbrev snapshot_json : Option J → M S J
  snapshot_json none = throw syntax_error
  snapshot_json (some json) = pure json

  unfoldable pub to_snapshot : SerializedSnapshot J → M S J
  to_snapshot s = elim (find_snapshot_class s.serialized_type app.snapshot_strategies) [
    | none ↦ throw error
    | some type ↦ snapshot_json s.json >>= λ json. lift (app.validated_plain_to_class type json)
  ]

  -- Without a strategy for the aggregate there is no snapshot, and the aggregate is `undefined`.
  unfoldable pub possibly_snapshot :
      A → List (EventWithMetadata J) → List (EventInstance J) → Option String → M S (Option J)
  possibly_snapshot a old new version =
      elim (lookup (app.constructor a).name app.snapshot_strategies) [
        | none ↦ pure none
        | some s ↦ s.possible_snapshot a old new version
      ]

  unfoldable pub recreate_from_snapshot : Class → J → M S A
  recreate_from_snapshot type json = elim (lookup type.name app.snapshot_strategies) [
    | none ↦ pure app.undefined
    | some s ↦ s.recreate type json
  ]

  abbrev recreate_entity : Class → Option (SerializedSnapshot J) → List (EventInstance J) → M S A
  recreate_entity type none events =
      recreate_aggregate app.methods app.strategy (app.new_object type) events
  recreate_entity type (some s) events = to_snapshot s >>= recreate_from_snapshot type >>= λ a.
      apply_events app.methods app.strategy a events

module _ {S A J : Type 0} (app : Application S A J) (tables : Tables S J) (subs : Subscriptions S J)
    (schemas : Schemas J) where
  unfoldable pub save :
      A → List (EventInstance J) → Option SaveOptions → M S EntityIdVersionAndEventIds
  save a events options = do
    metadata ← serialized_metadata schemas (app.constructor a) (metadata_of_save options)
    Crud.save tables subs (app.constructor a) (map (to_event_type_and_data metadata) events)
        (save_options options)

  unfoldable pub find : Class → String → Option Text → M S (EntityWithMetadata A J)
  find type id trigger = do
    outcome ← Crud.find tables subs type id trigger
    upcasted ← lift (upcast_aggregate_events type outcome.events schemas)
    events ← map_each (to_event_with_metadata app) upcasted
    entity ←
        recreate_entity app type outcome.snapshot
          (map (λ (e : EventWithMetadata J). e.event) events)
    pure (record {
      snapshot_version = snapshot_version_of outcome.snapshot;
      old_events = events;
      entity_version = last_or (version_or_none (snapshot_version_of outcome.snapshot)) events;
      entity_id = id;
      entity = entity;
    })

  unfoldable pub update :
      {I : Type 0}
      → A
      → VersionParameter J
      → String
      → List (EventInstance J)
      → Option (UpdateOptions J I)
      → M S EntityIdVersionAndEventIds
  update a version id events options = do
    metadata ← serialized_metadata schemas (app.constructor a) (metadata_of_update options)
    Crud.update tables subs (app.constructor a) id version
        (map (to_event_type_and_data metadata) events) (update_options options)
