-- ===== src/Events/Workflow/Tests.antt =====
-- The way of an event to its handlers at concrete inputs.
use nest_convoy.Prelude.{◌≡◌, refl, ℕ, String, none, some, List, [], ◌∷◌}
use nest_convoy.Prelude.Dict.{lookup, string_key}
use nest_convoy.Prelude.Result.{ok}
use nest_convoy.Prelude.Effect.{◌>>=◌, pure, lift}
use nest_convoy.Messaging.Headers.{MessageHeaders, get}
use nest_convoy.Messaging.Headers.Laws.{IsMap}
use nest_convoy.Messaging.Message.{
  Message, plain, id, id_header, type_header, get_required_header, get_header,
}
use nest_convoy.Messaging.Kafka.Message.{Json, to_producer_message, from_each_message}
use nest_convoy.Messaging.Kafka.Message.RoundTrip.{delivered}
use nest_convoy.Events.Schema.{Class, Schemas}
use nest_convoy.Events.Snapshot.Context.{decode}
use nest_convoy.Events.Crud.{SerializedEvent, AggregatesAndEvents}
use nest_convoy.Events.Workflow.{
  KafkaPublishedEvent, EventParser, to_serialized_event, parsed_metadata,
}
use nest_convoy.Events.Workflow.Initializer.{
  HandlerMethod, EventSubscriber, subscriber_options, includes_name, initialize,
}
use nest_convoy.Events.Workflow.Delivery.{
  published_event, published_context, to_serialized_event-delivered,
}
use nest_convoy.Events.Workflow.Subscribers.{
  Journal, recording, wanted, all_subscriptions, own_methods, initialize-all_subscriptions,
}

abbrev order_class : Class
order_class = record { identity = 0; name = "Order" }

abbrev order_created : Class
order_created = record { identity = 1; name = "OrderCreated" }

abbrev types : AggregatesAndEvents
types = wanted order_class order_created

abbrev pe : KafkaPublishedEvent
pe = record {
  id = "e1";
  entity_id = "17";
  entity_type = "Order";
  event_data = "{}";
  event_type = "OrderCreated";
  metadata = none;
}

abbrev parser : EventParser KafkaPublishedEvent String
parser = record { published = λ p. p; parse_data = λ text. ok text; parse_metadata = λ text. ok [] }

-- A text is what it was made of.
abbrev json : Json (KafkaPublishedEvent × MessageHeaders) KafkaPublishedEvent
json = record { stringify = λ p h. (p, h); parse = λ t. ok t; parse-stringify = λ p h. refl }

abbrev headers : MessageHeaders
headers = (id_header, "m1") ∷ (type_header, "OrderCreated") ∷ []

abbrev sent : Message KafkaPublishedEvent
sent = plain pe headers

headers-IsMap : IsMap headers
headers-IsMap = ((refl, tt), (tt, tt))

sent-id : id sent ≡ ok "m1"
unfolding id get_required_header get_header get
sent-id = refl

types_found : lookup "Order" types ≡ some (order_class, order_created ∷ [])
unfolding lookup
types_found = refl

no_metadata : parsed_metadata parser none ≡ ok none
unfolding parsed_metadata
no_metadata = refl

abbrev delivered_event : SerializedEvent String
delivered_event = published_event pe "Order" 2 41 order_class order_created "{}" none

to_serialized_event-delivered_example :
    (((to_producer_message {W = ℕ} json (λ p. p) none sent >>= λ r.
    from_each_message json (λ p. p) none (delivered "Order" 2 41 r))
          >>= λ d. lift (to_serialized_event parser d types))
        0
      ≡ (ok delivered_event, 0))
    × (decode delivered_event.event_context ≡ ok (some (published_context pe "Order" 2 41)))
to_serialized_event-delivered_example =
    to_serialized_event-delivered json parser (λ p. p) sent 0 "Order" "m1" 2 41 types pe refl
      headers-IsMap sent-id refl types_found refl refl no_metadata (refl, (refl, tt))
      (refl, (refl, (refl, (refl, (refl, tt)))))

abbrev subscriber : String → EventSubscriber
subscriber name = record {
  name = name;
  options =
      subscriber_options
        (record { given_durability = none; given_read_from = none; given_progress = none });
}

abbrev subscribers : List EventSubscriber
subscribers = subscriber "Billing" ∷ subscriber "Shipping" ∷ []

abbrev methods : List (HandlerMethod Journal String)
methods = record { provider = "Billing"; event = order_created; handler = λ de. pure tt } ∷ []

abbrev schemas : Schemas String
schemas = []

-- The handler of one subscriber is subscribed for both.
two_subscriptions :
    all_subscriptions
      (λ c j. pure j)
      schemas
      (λ c. some order_class)
      (λ c. order_class)
      subscribers
      (own_methods
        (λ c j. pure j)
        schemas
        (λ c. some order_class)
        (λ c. order_class)
        subscribers
        methods)
    ≡ ("Billing", types) ∷ ("Shipping", types) ∷ []
unfolding includes_name
two_subscriptions = refl

initialize-all_subscriptions_example :
    initialize recording (λ c j. pure j) schemas (λ c. some order_class) subscribers methods [] ≡ (
      ok tt,
      all_subscriptions
          (λ c j. pure j)
          schemas
          (λ c. some order_class)
          (λ c. order_class)
          subscribers
          (own_methods
            (λ c j. pure j)
            schemas
            (λ c. some order_class)
            (λ c. order_class)
            subscribers
            methods),
    )
initialize-all_subscriptions_example =
    initialize-all_subscriptions (λ c j. pure j) schemas (λ c. some order_class) (λ c. order_class)
      subscribers methods [] (refl, tt)
