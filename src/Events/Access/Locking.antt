-- ===== src/Events/Access/Locking.antt =====
-- packages/events/aggregate/crud/aggregate-crud-access.ts: optimistic locking over a table whose
-- updates are what their conditions say.
use nest_convoy.Prelude.{String, ◌≡◌, Option, some, List, ◌≢◌}
use nest_convoy.Prelude.Result.{Result, ok}
use nest_convoy.Events.Schema.{Class}
use nest_convoy.Events.Access.{
  Tables, TypeParameter, version_text, EventsEntity, SaveUpdateResult, write_snapshot,
}

-- The table of entities, whose key is an identifier with a type. `UPDATE ... WHERE` with the three
-- conditions of the query counts the row that meets them and writes its new version, and counts no
-- row and writes nothing where the row is missing or has another version. The other tables hold no
-- versions.
pub record VersionedTables {S J : Type 0} (tables : Tables S J) : Type 0 where
  pub version_of : String → TypeParameter → S → Option String
  pub update_found :
      (id v v' : String) (t : TypeParameter) (s : S)
      → version_of id t s ≡ some v
      → (s' : S) × (tables.update_entity id t (version_text v) v' s ≡ (ok (some 1), s'))
        × (version_of id t s' ≡ some v')
  pub update_missed :
      (id v v' : String) (t : TypeParameter) (s : S)
      → version_of id t s ≢ some v
      → tables.update_entity id t (version_text v) v' s ≡ (ok (some 0), s)
  pub uuid_keeps :
      (id : String) (t : TypeParameter) (s : S)
      → version_of id t (tables.uuid s).1 ≡ version_of id t s
  pub create_keeps :
      (id : String) (t : TypeParameter) (rows : List (EventsEntity J)) (s : S)
      → version_of id t (tables.create_events rows s).1 ≡ version_of id t s
  pub snapshot_keeps :
      (id : String) (t : TypeParameter) (c : Class) (i v : String) (s : S)
      → version_of id t (write_snapshot tables c i v s).1 ≡ version_of id t s

module _ {S J : Type 0} (tables : Tables S J) (versioned : VersionedTables tables) where
  view : String → TypeParameter → S → Option String
  view id t = versioned.version_of id t

  Matched : String → TypeParameter → String → S → S → SaveUpdateResult J → Type 0
  Matched id t v s s' r =
      (versioned.version_of id t s ≡ some v)
      × (versioned.version_of id t s' ≡ some r.0.saved_version)
