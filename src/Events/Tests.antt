-- ===== src/Events/Tests.antt =====
-- packages/events at concrete inputs: here the schema of an aggregate.
pub mod Deliveries
pub mod Stores
use nest_convoy.Prelude.{
  ◌≡◌, refl, ap, sym, ◌∙◌, ℕ, String, Text, codes, ◌==◌, Bool, true, false, Option, none, some,
  List, [], ◌∷◌, ◌+◌, if◌then◌else◌, find, Bool-cases, inl, inr, ◌<◌, ◌≤◌, map, ◌++◌, nat_eq, ◌&&◌,
}
use nest_convoy.Prelude.Int.{pos, pos_part, neg_part}
use nest_convoy.Prelude.Dict.{lookup, insert, string_key, nat_key}
use nest_convoy.Prelude.Result.{Result, ok, err}
use nest_convoy.Prelude.Effect.{M, pure, throw}
use nest_convoy.Common.Exceptions.{
  missing_apply_method, optimistic_locking, duplicate_triggering_event,
}
use nest_convoy.Common.Hash.{hash_code, partition_of, partition_of-bounds}
use nest_convoy.Events.Schema.{
  Class, EventMetadata, number, EventIdTypeAndData, AggregateSchema, AggregateSchemaVersion,
  upcast_events, upcast_all, upcast, upcast_aggregate_events, schema_version, current_version,
  needs_upcast, event_version, find_upcasters, collect_upcasters, maybe_rename, find_upcaster,
  is_empty, run_upcasters, with_new_version,
}
use nest_convoy.Events.Schema.Laws.{
  upcast_events-idempotent, upcast_events-version_blind, with_metadata,
}
use nest_convoy.Events.Schema.Build.{
  Description, chain, schema_of, version_of, upcast_aggregate_events-build,
}
use nest_convoy.Events.Schema.Builder.{build}

abbrev old_class : Class
old_class = record { identity = 1; name = "Opened" }

abbrev new_class : Class
new_class = record { identity = 2; name = "AccountOpened" }

abbrev account : Class
account = record { identity = 3; name = "Account" }

-- The second version renames an event and adds 10 to what it says.
abbrev second : Description ℕ
second = record {
  described = pos 2;
  rename_calls = (old_class, new_class) ∷ [];
  transform_calls = (new_class, λ n. ok (n + 10)) ∷ [];
}

abbrev schema : AggregateSchema ℕ
schema = schema_of account (second ∷ [])

abbrev stored : EventIdTypeAndData ℕ
stored = record { event_id = "e1"; event_type = old_class; event_data = 5; metadata = none }

abbrev upcasted : EventIdTypeAndData ℕ
upcasted = record {
  event_id = "e1";
  event_type = new_class;
  event_data = 15;
  metadata = some ((schema_version, number (pos 2)) ∷ []);
}

run_schema : upcast_events schema (stored ∷ []) ≡ ok (upcasted ∷ [])
unfolding upcast_events upcast_all current_version needs_upcast event_version upcast find_upcasters
    collect_upcasters maybe_rename find_upcaster is_empty run_upcasters with_new_version lookup
    insert
run_schema = refl

upcast_events-idempotent_example : upcast_events schema (upcasted ∷ []) ≡ ok (upcasted ∷ [])
upcast_events-idempotent_example =
    upcast_events-idempotent schema (stored ∷ []) (upcasted ∷ []) run_schema

current : current_version schema ≡ ok (pos 2)
unfolding current_version
current = refl

stale : needs_upcast (pos 2) (event_version stored) ≡ true
unfolding needs_upcast event_version lookup
stale = refl

abbrev first_metadata : EventMetadata
first_metadata = (schema_version, number (pos 1)) ∷ []

stale_too :
    needs_upcast (pos 2) (event_version (with_metadata schema stored (some first_metadata))) ≡ true
unfolding needs_upcast event_version lookup
stale_too = refl

upcast_events-version_blind_example :
    (e : EventIdTypeAndData ℕ) × (upcast_events schema
        (with_metadata schema stored (some first_metadata) ∷ [])
      ≡ ok (e ∷ []))
    × (e.event_data ≡ 15)
    × (e.event_type ≡ new_class)
upcast_events-version_blind_example =
    upcast_events-version_blind schema stored upcasted (some first_metadata) (pos 2) current stale
      stale_too run_schema

unknown : lookup {K = ℕ} {V = AggregateSchema ℕ} 3 [] ≡ none
unfolding lookup
unknown = refl

upcast_aggregate_events-build_example :
    (schemas : List (ℕ × AggregateSchema ℕ)) × (build (chain account second []) []
      ≡ (ok tt, schemas))
    × (upcast_aggregate_events account (stored ∷ []) schemas ≡ upcast_events schema (stored ∷ []))
upcast_aggregate_events-build_example =
    upcast_aggregate_events-build account account second [] [] (stored ∷ []) unknown
