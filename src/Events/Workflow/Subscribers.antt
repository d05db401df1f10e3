-- ===== src/Events/Workflow/Subscribers.antt =====
-- The subscriptions that packages/events/workflow/event-dispatcher-initializer.ts makes.
use mathlib.Core.List.{append-nil, append_assoc}
use nest_convoy.Prelude.{
  String, ◌≡◌, refl, ap, ◌∙◌, Option, some, List, [], ◌∷◌, ◌++◌, map, filter, All, Bool, Bool-cases,
  inl, inr,
}
use nest_convoy.Prelude.Result.{ok}
use nest_convoy.Prelude.Effect.{M, pure, modify, for_each, all_each}
use nest_convoy.Events.Schema.{Class, Schemas}
use nest_convoy.Events.Crud.{AggregatesAndEvents}
use nest_convoy.Events.Workflow.Initializer.{
  AggregateEvents, EventSubscriber, HandlerMethod, includes_name, subscribe_method, initialize,
}

-- The subscriptions that were asked for: the name of the subscriber, and what it wants.
abbrev pub Journal : Type 0
Journal = List (String × AggregatesAndEvents)

abbrev pub recording : {J : Type 0} → AggregateEvents Journal J
recording name types options handler = modify (λ journal. journal ++ (name, types) ∷ [])

-- The class of an event names its aggregate.
abbrev pub wanted : Class → Class → AggregatesAndEvents
wanted aggregate event = (aggregate.name, (aggregate, event ∷ [])) ∷ []

module _ {J E : Type 0} (to_class : Class → J → M Journal E) (schemas : Schemas J)
    (event_aggregate : Class → Option Class) (aggregate_of : Class → Class) where
  abbrev HasAggregate : HandlerMethod Journal E → Type 0
  HasAggregate m = event_aggregate m.event ≡ some (aggregate_of m.event)

  -- The subscriptions of one subscriber for a list of methods.
  abbrev pub subscriptions_of : EventSubscriber → List (HandlerMethod Journal E) → Journal
  subscriptions_of es [] = []
  subscriptions_of es (m ∷ ms) =
      (es.name, wanted (aggregate_of m.event) m.event) ∷ subscriptions_of es ms

  abbrev pub all_subscriptions : List EventSubscriber → List (HandlerMethod Journal E) → Journal
  all_subscriptions [] ms = []
  all_subscriptions (es ∷ rest) ms = subscriptions_of es ms ++ all_subscriptions rest ms

  subscribe_methods :
      (es : EventSubscriber) (ms : List (HandlerMethod Journal E)) (journal : Journal)
      → All HasAggregate ms
      → for_each (subscribe_method recording to_class schemas event_aggregate es) ms journal
        ≡ (ok tt, journal ++ subscriptions_of es ms)
  unfolding for_each subscribe_method
  subscribe_methods es [] journal h = rw (append-nil journal) refl
  subscribe_methods es (m ∷ ms) journal (has, h) =
      rw (subscribe_method, has)
        (subscribe_methods es ms (journal ++ (es.name, wanted (aggregate_of m.event) m.event) ∷ [])
            h
          ∙ ap (pure tt) (append_assoc journal _ (subscriptions_of es ms)))

  subscribe-All :
      (subscribers : List EventSubscriber) (ms : List (HandlerMethod Journal E)) (journal : Journal)
      → All HasAggregate ms
      → all_each
          (λ (es : EventSubscriber).
            for_each (subscribe_method recording to_class schemas event_aggregate es) ms)
          subscribers
          journal
        ≡ (ok tt, journal ++ all_subscriptions subscribers ms)
  unfolding all_each
  subscribe-All [] ms journal h = rw (append-nil journal) refl
  subscribe-All (es ∷ rest) ms journal h = rw (subscribe_methods es ms journal h) (
      subscribe-All rest ms (journal ++ subscriptions_of es ms) h
      ∙ ap (pure tt) (append_assoc journal (subscriptions_of es ms) (all_subscriptions rest ms)))

  abbrev pub own_methods :
      List EventSubscriber → List (HandlerMethod Journal E) → List (HandlerMethod Journal E)
  own_methods subscribers =
      filter (λ m. includes_name (map (λ (es : EventSubscriber). es.name) subscribers) m.provider)

  filter-All :
      (p : HandlerMethod Journal E → Bool) (ms : List (HandlerMethod Journal E))
      → All HasAggregate ms
      → All HasAggregate (filter p ms)
  filter-All p [] h = tt
  filter-All p (m ∷ ms) (has, h) = elim (Bool-cases (p m)) [
    | inl kept ↦ rw kept (has, filter-All p ms h)
    | inr dropped ↦ rw dropped (filter-All p ms h)
  ]

  -- Over an `AggregateEvents` that records what it is asked for, every subscriber is subscribed
  -- for every method of all subscribers, and not for its own alone: with n subscribers an event of
  -- a method is subscribed n times, under n names. The classes of the events name their
  -- aggregates.
  pub initialize-all_subscriptions :
      (subscribers : List EventSubscriber) (methods : List (HandlerMethod Journal E))
      (journal : Journal)
      → All HasAggregate methods
      → initialize recording to_class schemas event_aggregate subscribers methods journal
        ≡ (ok tt, journal ++ all_subscriptions subscribers (own_methods subscribers methods))
  unfolding initialize
  initialize-all_subscriptions subscribers methods journal h =
      subscribe-All subscribers _ journal (filter-All _ methods h)
