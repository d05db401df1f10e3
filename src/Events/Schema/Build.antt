-- ===== src/Events/Schema/Build.antt =====
-- packages/events/aggregate/schema: what the builders give for a description of versions.
use nest_convoy.Prelude.{
  inr, inl, Bool-cases, ◌≡◌, refl, ◌∙◌, none, List, [], ◌∷◌, ◌++◌, ap, map, if◌then◌else◌, nat_eq,
}
use mathlib.Core.List.{append-nil, append_assoc}
use nest_convoy.Prelude.Dict.{lookup, insert, lookup-insert, nat_key}
use nest_convoy.Prelude.Int.{ℤ}
use nest_convoy.Prelude.Result.{Result, ok}
use nest_convoy.Events.Schema.{
  Class, EventRename, EventTransform, EventIdTypeAndData, AggregateSchemaVersion, AggregateSchema,
  Schemas, add, upcast_aggregate_events, upcast_events,
}
use nest_convoy.Events.Schema.Builder.{
  AggregateSchemaBuilder, AggregateSchemaVersionBuilder, for_aggregate, begin_version, next_version,
  rename, transform, add_version, finish_version, finish_for_aggregate, build,
}

-- A version as its calls of `rename` and `transform` describe it.
pub record Description (J : Type 0) : Type 0 where
  pub described : ℤ
  pub rename_calls : List (Class × Class)
  pub transform_calls : List (Class × (J → Result J))

abbrev pub renaming : Class × Class → EventRename
renaming (old, new) = record { old_event_name = old.name; new_event_type = new }

module _ {J : Type 0} where
  abbrev pub transformation : Class × (J → Result J) → EventTransform J
  transformation (c, u) = record { event_name = c.name; upcaster = u }

  abbrev pub version_of : Description J → AggregateSchemaVersion J
  version_of d = record {
    version = d.described;
    renames = map renaming d.rename_calls;
    transforms = map transformation d.transform_calls;
  }

  abbrev call_renames :
      List (Class × Class) → AggregateSchemaVersionBuilder J → AggregateSchemaVersionBuilder J
  call_renames [] b = b
  call_renames ((old, new) ∷ cs) b = call_renames cs (rename old new b)

  abbrev call_transforms :
      List (Class × (J → Result J))
      → AggregateSchemaVersionBuilder J
      → AggregateSchemaVersionBuilder J
  call_transforms [] b = b
  call_transforms ((c, u) ∷ cs) b = call_transforms cs (transform c u b)

  -- The chain of calls for a version that is begun, and for the versions behind it.
  abbrev call_version :
      Description J → AggregateSchemaVersionBuilder J → AggregateSchemaVersionBuilder J
  call_version d b = call_transforms d.transform_calls (call_renames d.rename_calls b)

  abbrev call_versions :
      List (Description J) → AggregateSchemaVersionBuilder J → AggregateSchemaVersionBuilder J
  call_versions [] b = b
  call_versions (d ∷ ds) b = call_versions ds (call_version d (next_version d.described b))

  -- `forAggregate(c).version(...)...version(...)...`.
  abbrev pub chain : Class → Description J → List (Description J) → AggregateSchemaVersionBuilder J
  chain c d ds = call_versions ds (call_version d (begin_version d.described (for_aggregate c)))

  call_renames_lem :
      (cs : List (Class × Class)) (b : AggregateSchemaVersionBuilder J)
      → call_renames cs b ≡ record b { renamed = b.renamed ++ map renaming cs }
  unfolding rename
  call_renames_lem [] b = rw (append-nil b.renamed) refl
  call_renames_lem ((old, new) ∷ cs) b =
      rw (call_renames_lem cs (rename old new b), append_assoc b.renamed) refl

  call_transforms_lem :
      (cs : List (Class × (J → Result J))) (b : AggregateSchemaVersionBuilder J)
      → call_transforms cs b ≡ record b { transformed = b.transformed ++ map transformation cs }
  unfolding transform
  call_transforms_lem [] b = rw (append-nil b.transformed) refl
  call_transforms_lem ((c, u) ∷ cs) b =
      rw (call_transforms_lem cs (transform c u b), append_assoc b.transformed) refl

  begun :
      (d : Description J) (b : AggregateSchemaBuilder J)
      → finish_version (call_version d (begin_version d.described b))
        ≡ record b { built = b.built ++ (version_of d ∷ []) }
  unfolding finish_version begin_version add_version
  begun d b =
      rw
        (
          call_renames_lem d.rename_calls (begin_version d.described b),
          call_transforms_lem d.transform_calls _,
        )
        refl

  abbrev extend :
      AggregateSchemaBuilder J → List (AggregateSchemaVersion J) → AggregateSchemaBuilder J
  extend b vs = record b { built = b.built ++ vs }

  finish_version-call_versions :
      (ds : List (Description J)) (b : AggregateSchemaVersionBuilder J)
      → finish_version (call_versions ds b)
        ≡ record (finish_version b) { built = (finish_version b).built ++ map version_of ds }
  unfolding next_version
  finish_version-call_versions [] b = rw (append-nil (finish_version b).built) refl
  finish_version-call_versions (d ∷ ds) b =
      finish_version-call_versions ds (call_version d (next_version d.described b))
      ∙ ap (λ s. extend s (map version_of ds)) (begun d (finish_version b))
      ∙ rw (append_assoc (finish_version b).built) refl

  -- What a chain of calls builds: the versions in the order of the calls, with all that each was
  -- given.
  finish_version-chain :
      (c : Class) (d : Description J) (ds : List (Description J))
      → finish_version (chain c d ds) ≡ record { builder_type = c; built = map version_of (d ∷ ds) }
  finish_version-chain c d ds =
      finish_version-call_versions ds (call_version d (begin_version d.described (for_aggregate c)))
      ∙ rw (begun d (for_aggregate c)) refl

  abbrev pub schema_of : Class → List (Description J) → AggregateSchema J
  schema_of c ds = record { aggregate_type = c; versions = map version_of ds }

  add_new :
      (schema : AggregateSchema J) (schemas : Schemas J)
      → lookup schema.aggregate_type.identity schemas ≡ none
      → add schema schemas ≡ (ok tt, insert schema.aggregate_type.identity schema schemas)
  unfolding add
  add_new schema schemas unknown = rw (add, unknown) refl

  upcast_aggregate_events-insert :
      (c' : Class) (schema : AggregateSchema J) (schemas : Schemas J)
      (events : List (EventIdTypeAndData J))
      → upcast_aggregate_events c' events (insert schema.aggregate_type.identity schema schemas) ≡ (
          if nat_eq schema.aggregate_type.identity c'.identity
          then upcast_events schema events
          else upcast_aggregate_events c' events schemas)
  unfolding upcast_aggregate_events
  upcast_aggregate_events-insert c' schema schemas events =
      let k = schema.aggregate_type.identity in
      elim (Bool-cases (nat_eq k c'.identity)) [
        | inl same ↦
            rw (upcast_aggregate_events, lookup-insert c'.identity k schema schemas, same) refl
        | inr other ↦
            rw (upcast_aggregate_events, lookup-insert c'.identity k schema schemas, other) refl
      ]

  -- A chain of builder calls for a class without a schema registers, at its `build`, the versions
  -- in the order of the calls, with the renames and transformations that each was given. From then
  -- on the events of the class are upcast by them, and those of the other classes as before.
  pub upcast_aggregate_events-build :
      (c c' : Class) (d : Description J) (ds : List (Description J)) (schemas : Schemas J)
      (events : List (EventIdTypeAndData J))
      → lookup c.identity schemas ≡ none
      → (schemas' : Schemas J) × (build (chain c d ds) schemas ≡ (ok tt, schemas'))
        × (upcast_aggregate_events c' events schemas' ≡ (
            if nat_eq c.identity c'.identity
            then upcast_events (schema_of c (d ∷ ds)) events
            else upcast_aggregate_events c' events schemas))
  unfolding build finish_for_aggregate
  upcast_aggregate_events-build c c' d ds schemas events unknown =
      let schema = schema_of c (d ∷ ds) in
      (
        insert c.identity schema schemas,
        ap (λ (b : AggregateSchemaBuilder J). finish_for_aggregate b.builder_type b.built schemas)
              (finish_version-chain c d ds)
            ∙ add_new schema schemas unknown,
        upcast_aggregate_events-insert c' schema schemas events,
      )
