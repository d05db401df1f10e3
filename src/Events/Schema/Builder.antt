-- ===== src/Events/Schema/Builder.antt =====
-- packages/events/aggregate/schema: aggregate-schema-builder.ts,
-- aggregate-schema-version-builder.ts and configurable-event-schema.ts. A builder is a value: the
-- builder of a version holds that of its schema.
use nest_convoy.Prelude.{List, [], ◌∷◌, ◌++◌}
use nest_convoy.Prelude.Dict.{nat_key}
use nest_convoy.Prelude.Int.{ℤ}
use nest_convoy.Prelude.Result.{Result}
use nest_convoy.Prelude.Effect.{M, pure, ◌>>◌}
use nest_convoy.Events.Schema.{
  Class, EventRename, EventTransform, AggregateSchemaVersion, Schemas, add,
}

pub record AggregateSchemaBuilder (J : Type 0) : Type 0 where
  pub builder_type : Class
  pub built : List (AggregateSchemaVersion J)

pub record AggregateSchemaVersionBuilder (J : Type 0) : Type 0 where
  pub parent : AggregateSchemaBuilder J
  pub number : ℤ
  pub renamed : List EventRename
  pub transformed : List (EventTransform J)

module _ {J : Type 0} where
  abbrev pub for_aggregate : Class → AggregateSchemaBuilder J
  for_aggregate c = record { builder_type = c; built = [] }

  unfoldable pub add_version :
      ℤ
      → List EventRename
      → List (EventTransform J)
      → AggregateSchemaBuilder J
      → AggregateSchemaBuilder J
  add_version v rs ts b = record b {
    built = b.built ++ (record { version = v; renames = rs; transforms = ts } ∷ []);
  }

  -- `AggregateSchemaBuilder.version`.
  unfoldable pub begin_version : ℤ → AggregateSchemaBuilder J → AggregateSchemaVersionBuilder J
  begin_version v b = record { parent = b; number = v; renamed = []; transformed = [] }

  -- Arguments as the methods' callers give them: the class whose name is old, and the new class.
  unfoldable pub rename :
      Class → Class → AggregateSchemaVersionBuilder J → AggregateSchemaVersionBuilder J
  rename old new b = record b {
    renamed = b.renamed ++ (record { old_event_name = old.name; new_event_type = new } ∷ []);
  }

  unfoldable pub transform :
      Class → (J → Result J) → AggregateSchemaVersionBuilder J → AggregateSchemaVersionBuilder J
  transform c u b = record b {
    transformed = b.transformed ++ (record { event_name = c.name; upcaster = u } ∷ []);
  }

  unfoldable pub finish_version : AggregateSchemaVersionBuilder J → AggregateSchemaBuilder J
  unfolding add_version
  finish_version b = add_version b.number b.renamed b.transformed b.parent

  -- `AggregateSchemaVersionBuilder.version`.
  unfoldable pub next_version :
      ℤ → AggregateSchemaVersionBuilder J → AggregateSchemaVersionBuilder J
  unfolding finish_version begin_version
  next_version v b = begin_version v (finish_version b)

  -- `ConfigurableEventSchema.finishForAggregate`.
  unfoldable pub finish_for_aggregate :
      Class → List (AggregateSchemaVersion J) → M (Schemas J) (Unit {0})
  unfolding add
  finish_for_aggregate c vs = add (record { aggregate_type = c; versions = vs })

  -- `finishForAggregateAndStartNew`, through `AggregateSchemaVersionBuilder.forAggregate`.
  unfoldable pub start_new :
      Class → AggregateSchemaVersionBuilder J → M (Schemas J) (AggregateSchemaBuilder J)
  unfolding finish_for_aggregate finish_version
  start_new c b =
      let schema = finish_version b in
      finish_for_aggregate schema.builder_type schema.built >> pure (for_aggregate c)

  unfoldable pub build : AggregateSchemaVersionBuilder J → M (Schemas J) (Unit {0})
  unfolding finish_for_aggregate finish_version
  build b = let schema = finish_version b in finish_for_aggregate schema.builder_type schema.built
