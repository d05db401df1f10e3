-- ===== src/Events/Repository.antt =====
-- packages/events/aggregate: aggregate-repository.ts and aggregate-repository-interceptor.ts. `C` is
-- the type of the commands and `I` that of the interceptors. The observable that `firstValueFrom`
-- waits for is made of one promise: what it gives for a promise that is rejected is a parameter.
pub mod Branches
use nest_convoy.Prelude.{
  Text, String, Bool, true, false, Option, none, some, List, [], ◌∷◌, if◌then◌else◌, ◌≡◌, refl,
}
use nest_convoy.Prelude.Result.{Result, ok, err}
use nest_convoy.Prelude.Effect.{M, ◌>>=◌, ◌>>◌, pure, throw, lift, try_catch}
use nest_convoy.Common.Exceptions.{Exception, command_processing_failed, duplicate_triggering_event}
use nest_convoy.Events.Aggregates.{apply_events}
use nest_convoy.Events.Schema.{Class, Schemas}
use nest_convoy.Events.Access.{
  Tables, EntityIdVersionAndEventIds, SaveOptions, UpdateOptions, VersionParameter, version_text,
}
use nest_convoy.Events.Crud.{Subscriptions}
use nest_convoy.Events.Store.{
  Application, EventInstance, EventWithMetadata, EntityWithMetadata, possibly_snapshot,
}
use nest_convoy.Events.Store

pub record CommandOutcome (J : Type 0) : Type 0 where
  pub outcome_events : List (EventInstance J)
  pub throwable : Option Exception

pub record UpdateEventsAndOptions (J I : Type 0) : Type 0 where
  pub events : List (EventInstance J)
  pub options : Option (UpdateOptions J I)

pub record EntityIdAndVersion (J : Type 0) : Type 0 where
  pub entity_id : String
  pub entity_version : VersionParameter J

-- The methods of interceptors.
pub record AggregateRepositoryInterceptor (S A J I : Type 0) : Type 0 where
  pub transform_update : I → A → UpdateEventsAndOptions J I → M S (UpdateEventsAndOptions J I)
  pub handle_exception :
      I → A → Exception → Option (UpdateOptions J I) → M S (Option (UpdateEventsAndOptions J I))

-- `DefaultAggregateRepositoryInterceptor`.
abbrev pub default_interceptor : {S A J I : Type 0} → AggregateRepositoryInterceptor S A J I
default_interceptor = record {
  transform_update = λ i a u. pure u;
  handle_exception = λ i a e o. pure none;
}

-- The repository of a class of aggregates, with what it is made of. `process` is the aggregate's
-- method, and `retried` what is seen of a request that was rejected.
pub record AggregateRepository (S A J I C : Type 0) : Type 0 where
  pub aggregate_type : Class
  pub app : Application S A J
  pub tables : Tables S J
  pub subscriptions : Subscriptions S J
  pub schemas : Schemas J
  pub interceptors : AggregateRepositoryInterceptor S A J I
  pub own_interceptor : I
  pub process : A → C → M S (List (EventInstance J))
  pub retried : Exception → Result (EntityIdAndVersion J)

abbrev interceptor_or : {J I : Type 0} → I → Option (UpdateOptions J I) → I
interceptor_or i none = i
interceptor_or i (some o) = elim o.interceptor [ none ↦ i | some j ↦ j ]

abbrev pub trigger_of : {J I : Type 0} → Option (UpdateOptions J I) → Option Text
trigger_of none = none
trigger_of (some o) = o.update_trigger

-- `snapshot ? { snapshot } : options`.
abbrev pub snapshot_or_options :
    {J I : Type 0} → Option J → Option (UpdateOptions J I) → Option (UpdateOptions J I)
snapshot_or_options none options = options
snapshot_or_options (some s) options = some (record {
  update_metadata = none;
  update_trigger = none;
  update_snapshot = some s;
  interceptor = none;
})

abbrev pub is_duplicate : Exception → Bool
is_duplicate duplicate_triggering_event = true
is_duplicate _ = false

module _ {S A J I C : Type 0} (repo : AggregateRepository S A J I C) where
  abbrev pub store_find : String → Option Text → M S (EntityWithMetadata A J)
  store_find = Store.find repo.app repo.tables repo.subscriptions repo.schemas repo.aggregate_type

  abbrev handled_or_failed : Option (UpdateEventsAndOptions J I) → M S (UpdateEventsAndOptions J I)
  handled_or_failed none = throw command_processing_failed
  handled_or_failed (some handled) = pure handled

  -- `{ events, ...options }` has the options' fields, but no field `options`.
  unfoldable pub transform_update_events_and_options :
      A → CommandOutcome J → Option (UpdateOptions J I) → M S (UpdateEventsAndOptions J I)
  transform_update_events_and_options a outcome options =
      let i = interceptor_or repo.own_interceptor options in
      elim outcome.throwable [
        | some e ↦ repo.interceptors.handle_exception i a e options >>= handled_or_failed
        | none ↦
            apply_events repo.app.methods repo.app.strategy a outcome.outcome_events
            >> repo.interceptors.transform_update i a
                (record { events = outcome.outcome_events; options = none })
      ]

  unfoldable pub with_possible_snapshot :
      A
      → List (EventWithMetadata J)
      → List (EventInstance J)
      → Option String
      → Option (UpdateOptions J I)
      → M S (Option (UpdateOptions J I))
  with_possible_snapshot a old new version options = do
    snapshot ← possibly_snapshot repo.app a old new version
    pure (snapshot_or_options snapshot options)

  -- The outcome of a command, if the provider gives one; what the aggregate throws is its value.
  unfoldable pub process_command : A → Option C → M S (CommandOutcome J)
  process_command a none = pure (record { outcome_events = []; throwable = none })
  process_command a (some c) =
      try_catch (repo.process a c >>= λ es. pure (record { outcome_events = es; throwable = none }))
        (λ e. pure (record { outcome_events = []; throwable = some e }))

  abbrev pub found_version : EntityWithMetadata A J → EntityIdAndVersion J
  found_version found = record {
    entity_id = found.entity_id;
    entity_version = found.entity_version;
  }

  abbrev saved_version : EntityIdVersionAndEventIds → EntityIdAndVersion J
  saved_version r = record { entity_id = r.saved_id; entity_version = version_text r.saved_version }

  -- The `try` around the write.
  unfoldable pub write_events :
      EntityWithMetadata A J → UpdateEventsAndOptions J I → M S (EntityIdAndVersion J)
  write_events found transformed = do
    options ←
        with_possible_snapshot found.entity found.old_events transformed.events
          found.snapshot_version transformed.options
    saved ←
        Store.update repo.app repo.tables repo.subscriptions repo.schemas found.entity
          found.entity_version found.entity_id transformed.events options
    pure (saved_version saved)

  -- Its `catch`: all but a duplicate is answered with the version that was found.
  abbrev pub not_written : EntityWithMetadata A J → Exception → M S (EntityIdAndVersion J)
  not_written found e =
      if is_duplicate e
      then store_find found.entity_id none >>= (λ again. pure (found_version again))
      else pure (found_version found)

  unfoldable pub write_if_any :
      EntityWithMetadata A J → UpdateEventsAndOptions J I → M S (EntityIdAndVersion J)
  write_if_any found transformed = elim transformed.events [
    | [] ↦ pure (found_version found)
    | _ ∷ _ ↦ try_catch (write_events found transformed) (not_written found)
  ]

  -- The request of `updateWithProvidedCommand`.
  unfoldable pub request :
      String → (A → M S (Option C)) → Option (UpdateOptions J I) → M S (EntityIdAndVersion J)
  request id provider options = do
    found ← store_find id (trigger_of options)
    command ← provider found.entity
    outcome ← process_command found.entity command
    transformed ← transform_update_events_and_options found.entity outcome options
    write_if_any found transformed

  -- The request is made once: `from` is given its promise.
  unfoldable pub update_with_provided_command :
      String → (A → M S (Option C)) → Option (UpdateOptions J I) → M S (EntityIdAndVersion J)
  update_with_provided_command id provider options =
      try_catch (request id provider options) (λ e. lift (repo.retried e))

  unfoldable pub update : String → C → Option (UpdateOptions J I) → M S (EntityIdAndVersion J)
  unfolding update_with_provided_command
  update id cmd options = update_with_provided_command id (λ a. pure (some cmd)) options

  unfoldable pub save : C → Option SaveOptions → M S (EntityIdAndVersion J)
  save cmd options = do
    a ← repo.app.new_object repo.aggregate_type
    events ← repo.process a cmd
    apply_events repo.app.methods repo.app.strategy a events
    saved ← Store.save repo.app repo.tables repo.subscriptions repo.schemas a events options
    pure (saved_version saved)
