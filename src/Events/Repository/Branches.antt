-- ===== src/Events/Repository/Branches.antt =====
-- packages/events/aggregate/aggregate-repository.ts: an update whose write fails.
use nest_convoy.Prelude.{sym, String, false, Option, some, List, ◌∷◌, ◌≡◌, refl, ap, ◌∙◌}
use nest_convoy.Prelude.Result.{Result, ok, err}
use nest_convoy.Prelude.Effect.{>>=-assoc, >>=-step, M, ◌>>=◌, pure, lift, recover}
use nest_convoy.Common.Exceptions.{Exception}
use nest_convoy.Events.Access.{UpdateOptions}
use nest_convoy.Events.Store.{EventInstance, EntityWithMetadata}
use nest_convoy.Events.Repository.{
  AggregateRepository, EntityIdAndVersion, UpdateEventsAndOptions, store_find, trigger_of,
  process_command, transform_update_events_and_options, write_events, write_if_any, found_version,
  is_duplicate, not_written, request, update, update_with_provided_command,
}

module _ {S A J I C : Type 0} (repo : AggregateRepository S A J I C) where
  not_written-other :
      (found : EntityWithMetadata A J) (e : Exception) (s : S)
      → is_duplicate e ≡ false
      → not_written repo found e s ≡ (ok (found_version repo found), s)
  not_written-other found e s other = rw other refl

  -- A write that fails is answered with the version that was found.
  write_if_any_failed :
      (found : EntityWithMetadata A J) (transformed : UpdateEventsAndOptions J I)
      (x : EventInstance J) (xs : List (EventInstance J)) (e : Exception) (s s' : S)
      → transformed.events ≡ x ∷ xs
      → write_events repo found transformed s ≡ (err e, s')
      → is_duplicate e ≡ false
      → write_if_any repo found transformed s ≡ (ok (found_version repo found), s')
  unfolding write_if_any
  write_if_any_failed found transformed x xs e s s' some_events failed other =
      rw (write_if_any, some_events, failed) (not_written-other found e s' other)

  -- The events that a command makes of an aggregate.
  abbrev pub transformed_by : A → C → Option (UpdateOptions J I) → M S (UpdateEventsAndOptions J I)
  transformed_by a cmd options = process_command repo a (some cmd) >>= λ outcome.
      transform_update_events_and_options repo a outcome options

  requested :
      (id : String) (cmd : C) (options : Option (UpdateOptions J I))
      (found : EntityWithMetadata A J) (transformed : UpdateEventsAndOptions J I) (s s₁ s₂ : S)
      → store_find repo id (trigger_of options) s ≡ (ok found, s₁)
      → transformed_by found.entity cmd options s₁ ≡ (ok transformed, s₂)
      → request repo id (λ a. pure (some cmd)) options s ≡ write_if_any repo found transformed s₂
  unfolding request
  requested id cmd options found transformed s s₁ s₂ h t =
      >>=-step (store_find repo id (trigger_of options)) _ s s₁ (ok found) h
      ∙ sym (
          >>=-assoc (process_command repo found.entity (some cmd))
            (λ outcome. transform_update_events_and_options repo found.entity outcome options)
            (write_if_any repo found) s₁)
      ∙ >>=-step (transformed_by found.entity cmd options) (write_if_any repo found) s₁ s₂
          (ok transformed) t

  -- An update whose write fails is not reported. Where the aggregate is found and the command gives
  -- events, and the write throws anything but `DuplicateTriggeringEventException`, so also the
  -- `OptimisticLockingException` of a version that has changed, the update returns all the same: with
  -- the identifier and the version that were found, as if there had been nothing to write, and
  -- without another attempt.
  pub update_not_written :
      (id : String) (cmd : C) (options : Option (UpdateOptions J I))
      (found : EntityWithMetadata A J) (transformed : UpdateEventsAndOptions J I)
      (x : EventInstance J) (xs : List (EventInstance J)) (e : Exception) (s s₁ s₂ s₃ : S)
      → store_find repo id (trigger_of options) s ≡ (ok found, s₁)
      → transformed_by found.entity cmd options s₁ ≡ (ok transformed, s₂)
      → transformed.events ≡ x ∷ xs
      → write_events repo found transformed s₂ ≡ (err e, s₃)
      → is_duplicate e ≡ false
      → update repo id cmd options s ≡ (ok (found_version repo found), s₃)
  unfolding update update_with_provided_command request
  update_not_written id cmd options found transformed x xs e s s₁ s₂ s₃ h t some_events failed
        other =
      ap (λ (r : Result (EntityIdAndVersion J) × S). recover (λ y. lift (repo.retried y)) r.0 r.1)
        (requested id cmd options found transformed s s₁ s₂ h t
          ∙ write_if_any_failed found transformed x xs e s₂ s₃ some_events failed other)
