-- ===== src/Events/Workflow/Initializer.antt =====
-- packages/events/workflow: event-subscriber.ts and the `onModuleInit` of
-- event-dispatcher-initializer.ts, and the interface of
-- packages/events/aggregate/aggregate-events.ts. What the discovery of the framework finds and the
-- metadata of classes are parameters.
use nest_convoy.Events.Workflow.{DispatchedEvent, dispatch}
use nest_convoy.Prelude.{
  String, Bool, true, false, Option, none, some, List, [], ◌∷◌, ◌==◌, map, filter, if◌then◌else◌,
}
use nest_convoy.Prelude.Dict.{string_key}
use nest_convoy.Prelude.Effect.{M, throw, for_each, all_each, floating}
use nest_convoy.Common.Exceptions.{type_error}
use nest_convoy.Events.Schema.{Class, Schemas}
use nest_convoy.Events.Crud.{SerializedEvent, AggregatesAndEvents}

pub data SubscriberDurability : Type 0 where
  durable transient : SubscriberDurability

pub data SubscriberInitialPosition : Type 0 where
  beginning end : SubscriberInitialPosition

pub record SubscriberOptions : Type 0 where
  pub durability : SubscriberDurability
  pub read_from : SubscriberInitialPosition
  pub progress_notifications : Bool

-- What the decorator `EventSubscriber` takes; an option that is left out has its default.
pub record PartialOptions : Type 0 where
  pub given_durability : Option SubscriberDurability
  pub given_read_from : Option SubscriberInitialPosition
  pub given_progress : Option Bool

abbrev pub given_or : {A : Type 0} → Option A → A → A
given_or none d = d
given_or (some a) d = a

unfoldable pub subscriber_options : PartialOptions → SubscriberOptions
subscriber_options p = record {
  durability = given_or p.given_durability durable;
  read_from = given_or p.given_read_from beginning;
  progress_notifications = given_or p.given_progress false;
}

-- What the discovery gives: the subscribers, and the methods with the metadata of an event.
pub record EventSubscriber : Type 0 where
  pub name : String
  pub options : SubscriberOptions

pub record HandlerMethod (S E : Type 0) : Type 0 where
  pub provider : String
  pub event : Class
  pub handler : DispatchedEvent E → M S (Unit {0})

-- `AggregateEvents`.
abbrev pub AggregateEvents : Type 0 → Type 0 → Type 0
AggregateEvents S J =
    String
    → AggregatesAndEvents
    → SubscriberOptions
    → (SerializedEvent J → M S (Unit {0}))
    → M S (Unit {0})

unfoldable pub includes_name : List String → String → Bool
includes_name [] name = false
includes_name (x ∷ xs) name = if x == name then true else includes_name xs name

module _ {S J E : Type 0} (aggregate_events : AggregateEvents S J) (to_class : Class → J → M S E)
    (schemas : Schemas J) (event_aggregate : Class → Option Class) where
  unfoldable pub subscribe_method : EventSubscriber → HandlerMethod S E → M S (Unit {0})
  subscribe_method es m = elim (event_aggregate m.event) [
    | none ↦ throw type_error
    | some aggregate ↦ floating (
        aggregate_events es.name ((aggregate.name, (aggregate, m.event ∷ [])) ∷ []) es.options
          (dispatch to_class schemas m.handler))
  ]

  -- `onModuleInit`: the methods are those of all subscribers.
  unfoldable pub initialize : List EventSubscriber → List (HandlerMethod S E) → M S (Unit {0})
  unfolding subscribe_method includes_name
  initialize subscribers methods =
      let names = map (λ (es : EventSubscriber). es.name) subscribers in
      let own = filter (λ (m : HandlerMethod S E). includes_name names m.provider) methods in
      all_each (λ (es : EventSubscriber). for_each (subscribe_method es) own) subscribers
