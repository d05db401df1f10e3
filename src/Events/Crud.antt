-- ===== src/Events/Crud.antt =====
-- packages/events/aggregate: crud/aggregate-crud.ts, serialized-event.ts and aggregate-events.ts. A
-- `Set` of classes is the list of them, and so is a `Set` of subscriptions, each of them new: their
-- order is that of insertion. What a subscriber does is a parameter.
use nest_convoy.Prelude.{
  ℕ, String, Text, codes, Bool, true, false, Option, none, some, List, [], ◌∷◌, ◌++◌, if◌then◌else◌,
  nat_eq,
}
use nest_convoy.Prelude.Int.{ℤ}
use nest_convoy.Prelude.Dict.{lookup, insert, string_key}
use nest_convoy.Prelude.Effect.{M, ◌>>=◌, ◌>>◌, pure, for_each, when}
use nest_convoy.Common.Hash.{partition_of}
use nest_convoy.Events.Schema.{Class, EventMetadata, EventIdTypeAndData}
use nest_convoy.Events.Access.{
  Tables, EventTypeAndData, VersionParameter, LoadedEvents, EntityIdVersionAndEventIds,
  PublishableEvents, SaveOptions, UpdateOptions,
}
use nest_convoy.Events.Access

pub record SerializedEvent (J : Type 0) : Type 0 where
  pub id : String
  pub entity_id : String
  pub entity_type : Class
  pub event_data : J
  pub event_type : Class
  -- `none` is NaN
  pub partition : Option ℤ
  pub offset : ℕ
  pub event_context : Text
  pub metadata : Option EventMetadata

-- The map from the name of an aggregate to its class and its events' classes.
abbrev pub AggregatesAndEvents : Type 0
AggregatesAndEvents = List (String × (Class × List Class))

pub record Subscription (S J : Type 0) : Type 0 where
  pub subscriber_id : String
  pub aggregates_and_events : AggregatesAndEvents
  pub handler : SerializedEvent J → M S (Unit {0})

-- `Set.has`: a class is known by its identity.
unfoldable pub has_class : Class → List Class → Bool
has_class c [] = false
has_class c (d ∷ ds) = if nat_eq d.identity c.identity then true else has_class c ds

unfoldable pub is_interested_in : {S J : Type 0} → Subscription S J → String → Class → Bool
unfolding has_class
is_interested_in sub type event = elim (lookup type sub.aggregates_and_events) [
  | none ↦ false
  | some (_, events) ↦ has_class event events
]

-- `aggregateSubscriptions`.
abbrev pub Subscriptions : Type 0 → Type 0 → Type 0
Subscriptions S J = List (String × List (Subscription S J))

abbrev pub subscriptions_or_none {ℓ} : {A : Type ℓ} → Option (List A) → List A
subscriptions_or_none none = []
subscriptions_or_none (some xs) = xs

module _ {J : Type 0} where
  abbrev pub serialized_event : Class → String → EventIdTypeAndData J → SerializedEvent J
  serialized_event type id e = record {
    id = e.event_id;
    entity_id = id;
    entity_type = type;
    event_data = e.event_data;
    event_type = e.event_type;
    partition = some (partition_of (codes id));
    offset = 1;
    event_context = codes e.event_id;
    metadata = e.metadata;
  }

module _ {S J : Type 0} where
  -- `forEach` over the aggregates that the subscription names.
  unfoldable pub add_subscription :
      Subscription S J → AggregatesAndEvents → Subscriptions S J → Subscriptions S J
  add_subscription sub [] subs = subs
  add_subscription sub ((type, _) ∷ types) subs =
      add_subscription sub types
        (insert type (subscriptions_or_none (lookup type subs) ++ (sub ∷ [])) subs)

  unfoldable pub subscribe :
      String
      → AggregatesAndEvents
      → (SerializedEvent J → M S (Unit {0}))
      → Subscriptions S J
      → Subscriptions S J
  unfolding add_subscription
  subscribe id types handler subs =
      add_subscription
        (record { subscriber_id = id; aggregates_and_events = types; handler = handler }) types subs

  unfoldable pub publish_to :
      Class → String → List (EventIdTypeAndData J) → Subscription S J → M S (Unit {0})
  unfolding is_interested_in
  publish_to type id events sub =
      for_each
        (λ (e : EventIdTypeAndData J).
          when (is_interested_in sub type.name e.event_type)
            (sub.handler (serialized_event type id e)))
        events

  unfoldable pub publish : Subscriptions S J → PublishableEvents J → M S (Unit {0})
  unfolding publish_to
  publish subs p =
      for_each (publish_to p.publishable_type p.publishable_id p.events_with_ids)
        (subscriptions_or_none (lookup p.publishable_type.name subs))

-- `AggregateCrud`, and the class that publishes what it stored. `DatabaseAggregateCrud` alone
-- publishes nothing.
module _ {S J : Type 0} (tables : Tables S J) (subs : Subscriptions S J) where
  unfoldable pub find : Class → String → Option (List ℕ) → M S (LoadedEvents J)
  find type id trigger = Access.find tables type id trigger

  unfoldable pub save :
      Class → List (EventTypeAndData J) → SaveOptions → M S EntityIdVersionAndEventIds
  save type events options = do
    result ← Access.save tables type events options
    publish subs result.1
    pure result.0

  unfoldable pub update :
      {I : Type 0}
      → Class
      → String
      → VersionParameter J
      → List (EventTypeAndData J)
      → UpdateOptions J I
      → M S EntityIdVersionAndEventIds
  update type id version events options = do
    result ← Access.update tables type id version events options
    publish subs result.1
    pure result.0
