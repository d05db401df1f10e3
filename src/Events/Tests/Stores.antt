-- ===== src/Events/Tests/Stores.antt =====
-- Tables and a repository of aggregates at concrete inputs: the state is the version of an entity.
use nest_convoy.Prelude.{◌≡◌, refl, ℕ, String, ◌==◌, Bool, true, false, Option, none, some, [], ◌∷◌}
use nest_convoy.Prelude.Result.{Result, ok, err}
use nest_convoy.Prelude.Effect.{M, pure, map_each}
use nest_convoy.Common.Exceptions.{optimistic_locking}
use nest_convoy.Events.Schema.{Class}
use nest_convoy.Events.Access.{
  Tables, VersionParameter, version_text, EventTypeAndData, UpdateOptions, update, to_event_id,
  last_event_id, EventsEntity, one_row, SaveUpdateResult, save_update_result,
}
use nest_convoy.Events.Repository.{
  AggregateRepository, store_find, found_version, default_interceptor, write_events,
  process_command, transform_update_events_and_options, with_possible_snapshot,
  update as update_aggregate,
}
use nest_convoy.Events.Repository.Branches.{update_not_written, transformed_by}
use nest_convoy.Events.Store
use nest_convoy.Events.Access
use nest_convoy.Events.Crud
use nest_convoy.Events.Store.{
  Application, EventInstance, EntityWithMetadata, to_event_with_metadata, possibly_snapshot,
  to_event_type_and_data, serialized_metadata,
}
use nest_convoy.Prelude.{◌+◌}
use nest_convoy.Prelude.Dict.{lookup}
use nest_convoy.Events.Aggregates.{default_strategy, apply_events}
use nest_convoy.Events.Access.{anonymous, version_object, any_triggered}
use nest_convoy.Events.Schema.{upcast_aggregate_events}

abbrev account : Class
account = record { identity = 3; name = "Account" }

abbrev counted : Bool → String → String → Result (Option ℕ) × String
counted true new s = (ok (some 1), new)
counted false new s = (ok (some 0), s)

abbrev update_version : VersionParameter ℕ → String → M String (Option ℕ)
update_version (version_text v) new s = counted (s == v) new s
update_version _ new s = (ok (some 0), s)

abbrev stored_row : EventsEntity ℕ
stored_row = record {
  event_id = "e1";
  event_type = some "Opened";
  event_data = 5;
  triggering_event = none;
  metadata = none;
  entity_type = "Account";
  entity_id = "a1";
}

abbrev tables : Tables String ℕ
tables = record {
  uuid = pure "u2";
  save_entity = λ e. pure e;
  update_entity = λ id t v new. update_version v new;
  create_events = λ es. pure tt;
  find_events = λ t id. pure (stored_row ∷ []);
  find_events_after = λ t id v. pure [];
  find_snapshot = λ t id. pure none;
  last_snapshot = λ t id. pure none;
  save_snapshot = λ row. pure tt;
}

abbrev deposit : EventTypeAndData ℕ
deposit = record { new_type = account; new_data = 4; new_metadata = none }

abbrev no_options : UpdateOptions ℕ (Unit {0})
no_options = record {
  update_metadata = none;
  update_trigger = none;
  update_snapshot = none;
  interceptor = none;
}

abbrev updated : SaveUpdateResult ℕ
updated =
    save_update_result account "a1" "u2"
      (record { event_id = "u2"; event_type = account; event_data = 4; metadata = none } ∷ [])

-- A repository whose commands are the amounts to deposit.
abbrev app : Application String ℕ ℕ
app = record {
  methods = record { has_apply_event = λ a. true; apply_event = λ a e. pure (a + e.plain) };
  strategy = default_strategy;
  new_object = λ c. pure 0;
  constructor = λ a. account;
  undefined = 0;
  validated_plain_to_class = λ c j. ok j;
  snapshot_strategies = [];
}

abbrev repository : AggregateRepository String ℕ ℕ (Unit {0}) ℕ
repository = record {
  aggregate_type = account;
  app = app;
  tables = tables;
  subscriptions = [];
  schemas = [];
  interceptors = default_interceptor;
  own_interceptor = tt;
  process = λ a c. pure (record { event_class = account; plain = c } ∷ []);
  retried = λ e. err e;
}

abbrev found_account : EntityWithMetadata ℕ ℕ
found_account = record {
  snapshot_version = none;
  old_events =
      record {
        event = record { event_class = anonymous; plain = 5 };
        event_id = "e1";
        metadata = none;
      }
      ∷ [];
  entity_version = version_object 5;
  entity_id = "a1";
  entity = 5;
}

abbrev deposited : EventInstance ℕ
deposited = record { event_class = account; plain = 4 }

found_run : store_find repository "a1" none "v1" ≡ (ok found_account, "v1")
unfolding Store.find Crud.find Access.find any_triggered upcast_aggregate_events lookup map_each
    to_event_with_metadata apply_events
found_run = refl

transformed_run :
    transformed_by repository 5 4 none "v1"
    ≡ (ok (record { events = deposited ∷ []; options = none }), "v1")
unfolding process_command transform_update_events_and_options apply_events
transformed_run = refl

write_run :
    write_events repository found_account (record { events = deposited ∷ []; options = none }) "v1"
    ≡ (err optimistic_locking, "v1")
unfolding write_events with_possible_snapshot possibly_snapshot lookup Store.update Crud.update
    Access.update serialized_metadata to_event_type_and_data map_each to_event_id last_event_id
write_run = refl

update_not_written_example :
    update_aggregate repository "a1" 4 none "v1"
    ≡ (ok (found_version repository found_account), "v1")
update_not_written_example =
    update_not_written repository "a1" 4 none found_account
      (record { events = deposited ∷ []; options = none }) deposited [] optimistic_locking "v1" "v1"
      "v1" "v1" found_run transformed_run refl write_run refl
