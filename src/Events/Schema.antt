-- ===== src/Events/Schema.antt =====
-- packages/events/aggregate/schema: aggregate-schema-version.ts, aggregate-schema.ts and
-- event-schema-manager.ts. `J` is the plain object of an event's data. An upcaster is code of the
-- application and may throw. `withNewVersion` writes into the metadata of the event that it was
-- given; what it returns stands here.
pub mod Builder
pub mod Build
pub mod Laws
use nest_convoy.Prelude.{
  ℕ, String, ◌==◌, Bool, true, false, Option, none, some, List, [], ◌∷◌, ◌++◌, not, ◌&&◌,
  if◌then◌else◌, find,
}
use nest_convoy.Prelude.Dict.{lookup, insert, string_key, nat_key}
use nest_convoy.Prelude.Int.{ℤ, pos, negsuc, int_eq}
use nest_convoy.Prelude.Result.{Result, ok, err, ◌>>=◌}
use nest_convoy.Prelude.Effect.{M, pure, throw, get, modify}
use nest_convoy.Common.Exceptions.{runtime, type_error}

-- A class: its identity, which keys of a map compare, and its name, which is all else that is read.
pub record Class : Type 0 where
  pub identity : ℕ
  pub name : String

-- `Record<string, string | number>`.
pub data MetadataValue : Type 0 where
  text : String → MetadataValue
  number : ℤ → MetadataValue

abbrev pub EventMetadata : Type 0
EventMetadata = List (String × MetadataValue)

pub record EventIdTypeAndData (J : Type 0) : Type 0 where
  pub event_id : String
  pub event_type : Class
  pub event_data : J
  pub metadata : Option EventMetadata

pub record EventRename : Type 0 where
  pub old_event_name : String
  pub new_event_type : Class

pub record EventTransform (J : Type 0) : Type 0 where
  pub event_name : String
  pub upcaster : J → Result J

pub record AggregateSchemaVersion (J : Type 0) : Type 0 where
  pub version : ℤ
  pub renames : List EventRename
  pub transforms : List (EventTransform J)

pub record AggregateSchema (J : Type 0) : Type 0 where
  pub aggregate_type : Class
  pub versions : List (AggregateSchemaVersion J)

pub record NewEventAndUpcasters (J : Type 0) : Type 0 where
  pub upcasters : List (J → Result J)
  pub new_type : Option Class

abbrev pub schema_version : String
schema_version = "convoy_schema_version"

abbrev rename_or : Class → Option EventRename → Class
rename_or t none = t
rename_or t (some r) = r.new_event_type

unfoldable pub maybe_rename : {J : Type 0} → AggregateSchemaVersion J → Class → Class
maybe_rename v t = rename_or t (find (λ (r : EventRename). t.name == r.old_event_name) v.renames)

abbrev upcaster_of : {J : Type 0} → Option (EventTransform J) → Option (J → Result J)
upcaster_of none = none
upcaster_of (some t) = some t.upcaster

unfoldable pub find_upcaster :
    {J : Type 0} → AggregateSchemaVersion J → Class → Option (J → Result J)
find_upcaster {J} v t =
    upcaster_of (find (λ (x : EventTransform J). t.name == x.event_name) v.transforms)

-- `if (upcaster) upcasters.push(upcaster)`.
abbrev push_upcaster :
    {J : Type 0} → Option (J → Result J) → List (J → Result J) → List (J → Result J)
push_upcaster none us = us
push_upcaster (some u) us = us ++ (u ∷ [])

-- The loop over the versions, with the type and the upcasters found so far.
unfoldable pub collect_upcasters :
    {J : Type 0}
    → List (AggregateSchemaVersion J)
    → Class
    → List (J → Result J)
    → Class × List (J → Result J)
collect_upcasters [] t us = (t, us)
collect_upcasters (v ∷ vs) t us =
    let renamed = maybe_rename v t in
    collect_upcasters vs renamed (push_upcaster (find_upcaster v renamed) us)

-- `fromVersion` and `toVersion` are not read.
unfoldable pub find_upcasters :
    {J : Type 0} → AggregateSchema J → Class → MetadataValue → ℤ → NewEventAndUpcasters J
unfolding collect_upcasters
find_upcasters schema t from_version to_version =
    let found = collect_upcasters schema.versions t [] in
    record { upcasters = found.1; new_type = if found.0.name == t.name then none else some found.0 }

unfoldable pub is_empty : {J : Type 0} → NewEventAndUpcasters J → Bool
is_empty n = elim n.new_type [
  | some t ↦ false
  | none ↦ elim n.upcasters [ [] ↦ true | _ ∷ _ ↦ false ]
]

-- `upcasters.reduce((json, upcaster) => upcaster.upcast(json), eventData)`.
unfoldable pub run_upcasters : {J : Type 0} → List (J → Result J) → J → Result J
run_upcasters [] json = ok json
run_upcasters (u ∷ us) json = u json >>= λ json'. run_upcasters us json'

abbrev last_version : {J : Type 0} → List (AggregateSchemaVersion J) → Result ℤ
last_version [] = err type_error
last_version (v ∷ []) = ok v.version
last_version (v ∷ w ∷ vs) = last_version (w ∷ vs)

-- The version of the last entry; without entries the access throws.
unfoldable pub current_version : {J : Type 0} → AggregateSchema J → Result ℤ
current_version schema = last_version schema.versions

abbrev metadata_or_empty : Option EventMetadata → EventMetadata
metadata_or_empty none = []
metadata_or_empty (some m) = m

unfoldable pub with_new_version : ℤ → Option EventMetadata → EventMetadata
with_new_version v m = insert schema_version (number v) (metadata_or_empty m)

abbrev value_or_initial : Option MetadataValue → MetadataValue
value_or_initial none = number (negsuc 0)
value_or_initial (some v) = v

-- -1 where the metadata does not say.
unfoldable pub event_version : {J : Type 0} → EventIdTypeAndData J → MetadataValue
event_version e = value_or_initial (lookup schema_version (metadata_or_empty e.metadata))

-- `!==`: a version that is a text differs from each number.
unfoldable pub needs_upcast : ℤ → MetadataValue → Bool
needs_upcast latest (number actual) = not (int_eq latest actual)
needs_upcast latest (text s) = true

abbrev pub type_or : Class → Option Class → Class
type_or t none = t
type_or t (some new) = new

-- The rest of `upcast`, behind its early return.
abbrev pub upcast_found :
    {J : Type 0}
    → AggregateSchema J
    → EventIdTypeAndData J
    → NewEventAndUpcasters J
    → Result (EventIdTypeAndData J)
upcast_found schema e found = do
  json ← run_upcasters found.upcasters e.event_data
  v ← current_version schema
  ok (record {
    event_id = e.event_id;
    event_type = type_or e.event_type found.new_type;
    event_data = json;
    metadata = some (with_new_version v e.metadata);
  })

unfoldable pub upcast :
    {J : Type 0}
    → AggregateSchema J
    → EventIdTypeAndData J
    → ℤ
    → MetadataValue
    → Result (EventIdTypeAndData J)
upcast schema e to_version from_version =
    let found = find_upcasters schema e.event_type from_version to_version in
    if is_empty found then ok e else upcast_found schema e found

abbrev pub maybe_upcast :
    {J : Type 0} → AggregateSchema J → ℤ → EventIdTypeAndData J → Result (EventIdTypeAndData J)
maybe_upcast schema latest e =
    if needs_upcast latest (event_version e) then upcast schema e latest (event_version e) else ok e

-- `events.map(...)`, which stops at the first upcaster that throws.
unfoldable pub upcast_all :
    {J : Type 0}
    → AggregateSchema J
    → ℤ
    → List (EventIdTypeAndData J)
    → Result (List (EventIdTypeAndData J))
upcast_all schema latest [] = ok []
upcast_all schema latest (e ∷ es) = do
  e' ← maybe_upcast schema latest e
  es' ← upcast_all schema latest es
  ok (e' ∷ es')

unfoldable pub upcast_events :
    {J : Type 0}
    → AggregateSchema J
    → List (EventIdTypeAndData J)
    → Result (List (EventIdTypeAndData J))
upcast_events schema events = current_version schema >>= λ latest. upcast_all schema latest events

-- The manager's map from classes to schemas; a class is known by its identity.
abbrev pub Schemas : Type 0 → Type 0
Schemas J = List (ℕ × AggregateSchema J)

unfoldable pub add : {J : Type 0} → AggregateSchema J → M (Schemas J) (Unit {0})
add schema schemas = elim (lookup schema.aggregate_type.identity schemas) [
  | some _ ↦ throw runtime schemas
  | none ↦ modify (insert schema.aggregate_type.identity schema) schemas
]

-- `{ [SCHEMA_VERSION]: version }`, where the version is neither undefined nor 0.
abbrev version_metadata : ℤ → Option EventMetadata
version_metadata v = if int_eq v (pos 0) then none else some ((schema_version, number v) ∷ [])

unfoldable pub current_schema_metadata :
    {J : Type 0} → Class → Schemas J → Result (Option EventMetadata)
current_schema_metadata c schemas = elim (lookup c.identity schemas) [
  | none ↦ ok none
  | some schema ↦ current_version schema >>= λ v. ok (version_metadata v)
]

-- The manager's `upcastEvents`: without a schema the events stay as they are.
unfoldable pub upcast_aggregate_events :
    {J : Type 0}
    → Class
    → List (EventIdTypeAndData J)
    → Schemas J
    → Result (List (EventIdTypeAndData J))
upcast_aggregate_events c events schemas = elim (lookup c.identity schemas) [
  | none ↦ ok events
  | some schema ↦ upcast_events schema events
]
