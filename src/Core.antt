-- ===== src/Core.antt =====
-- packages/core: decorators.ts and initializer.service.ts, with the builders of
-- packages/commands/consumer/command-handlers-builder.ts and
-- packages/events/subscriber/domain-event-handlers-builder.ts. A class of the application is a value:
-- its metadata and, in the order of the prototype's properties, its methods with theirs. The lists
-- of classes are those that the explorer of the framework finds, and the dispatchers that are made
-- and subscribed are a parameter.
pub mod Tests
pub mod Wiring
use nest_convoy.Prelude.{
  String, Bool, true, false, Option, none, some, List, [], ◌∷◌, ◌++◌, ◌==◌, if◌then◌else◌,
}
use nest_convoy.Prelude.Effect.{M, ◌>>=◌, ◌>>◌, pure, all_each, first_error, when}
use nest_convoy.Commands.Handler.{CommandHandler, CommandMessage, HandlerResult}
use nest_convoy.Events.Domain.Handlers.{DomainEventHandler, DomainEventEnvelope}

-- `CommandMessageHandlerOptions`.
pub record HandlerOptions (W P : Type 0) : Type 0 where
  pub with_lock : Bool
  pub pre_lock : Option (CommandMessage P → M W String)

pub record HandlerMethod (W P : Type 0) : Type 0 where
  -- `COMMAND_MESSAGE_HANDLER` and `COMMAND_MESSAGE_HANDLER_OPTIONS`: the name of a command's class
  pub command_type : Option (String × HandlerOptions W P)
  -- `DOMAIN_EVENT_HANDLER`: the name of an event's class
  pub handled_event : Option String
  pub on_command : CommandMessage P → M W (HandlerResult P)
  pub on_event : DomainEventEnvelope P → M W (Unit {0})

pub record HandlerClass (W P : Type 0) : Type 0 where
  pub name : String
  pub methods : List (HandlerMethod W P)
  -- `COMMAND_HANDLER_METADATA`, `HAS_COMMAND_HANDLER_METADATA`, `SAGA_COMMAND_HANDLER_METADATA`
  pub is_explored : Bool
  pub has_command_handler : Bool
  pub is_saga_command_handler : Bool
  -- `FROM_CHANNEL_METADATA`, `AGGREGATE_TYPE_METADATA`
  pub from_channel : Option String
  pub aggregate_type : Option String

abbrev pub bare_class : {W P : Type 0} → String → List (HandlerMethod W P) → HandlerClass W P
bare_class name methods = record {
  name = name;
  methods = methods;
  is_explored = false;
  has_command_handler = false;
  is_saga_command_handler = false;
  from_channel = none;
  aggregate_type = none;
}

module _ {W P : Type 0} where
  -- The decorators of methods and of classes.
  unfoldable pub on_message : String → HandlerOptions W P → HandlerMethod W P → HandlerMethod W P
  on_message message options m = record m { command_type = some (message, options) }

  unfoldable pub on_domain_event : String → HandlerMethod W P → HandlerMethod W P
  on_domain_event event m = record m { handled_event = some event }

  unfoldable pub command_handlers : String → HandlerClass W P → HandlerClass W P
  command_handlers channel c = record c { is_explored = true; from_channel = some channel }

  unfoldable pub saga_command_handlers : String → HandlerClass W P → HandlerClass W P
  saga_command_handlers channel c = record c {
    is_explored = true;
    has_command_handler = if c.is_explored then true else c.has_command_handler;
    is_saga_command_handler = true;
    from_channel = some channel;
  }

  unfoldable pub domain_event_handlers : String → HandlerClass W P → HandlerClass W P
  domain_event_handlers type c = record c { aggregate_type = some type }

  -- `CommandHandlersBuilder.onMessage`, and the `new SagaCommandHandler` of the other branch, which is
  -- given no `preLock`: that of the options is not looked at again.
  unfoldable pub add_command_handler :
      String
      → String
      → (CommandMessage P → M W (HandlerResult P))
      → HandlerOptions W P
      → List (CommandHandler W P)
      → List (CommandHandler W P)
  add_command_handler channel command handler options handlers =
      handlers
      ++ record {
        channel = channel;
        command_name = command;
        invoke = handler;
        with_lock = options.with_lock;
        resource = none;
        pre_lock = none;
      }
        ∷ []

  -- `getMethodTypes` and the `reduce` over what it gives.
  unfoldable pub add_methods :
      String → List (HandlerMethod W P) → List (CommandHandler W P) → List (CommandHandler W P)
  unfolding add_command_handler
  add_methods channel [] handlers = handlers
  add_methods channel (m ∷ ms) handlers = elim m.command_type [
    | none ↦ add_methods channel ms handlers
    | some (command, options) ↦
        add_methods channel ms (add_command_handler channel command m.on_command options handlers)
  ]

  unfoldable pub add_event_methods :
      String
      → List (HandlerMethod W P)
      → List (DomainEventHandler W P)
      → List (DomainEventHandler W P)
  add_event_methods type [] handlers = handlers
  add_event_methods type (m ∷ ms) handlers = elim m.handled_event [
    | none ↦ add_event_methods type ms handlers
    | some event ↦
        add_event_methods type ms
          (handlers ++ record { event_name = event; invoke = m.on_event; handler_type = type } ∷ [])
  ]

-- What the factories make, by the name of the class; `S` is the state that a subscription changes.
pub record DispatcherFactories (S W P : Type 0) : Type 0 where
  pub subscribe_commands : String → List (CommandHandler W P) → M S (Unit {0})
  pub subscribe_events : String → List (DomainEventHandler W P) → M S (Unit {0})
  -- the factory of sagas is optional
  pub subscribe_saga_commands : Option (String → List (CommandHandler W P) → M S (Unit {0}))

module _ {S W P : Type 0} (factories : DispatcherFactories S W P) where
  abbrev pub subscribe_saga :
      Option (String → List (CommandHandler W P) → M S (Unit {0}))
      → String
      → List (CommandHandler W P)
      → M S (Unit {0})
  subscribe_saga none name handlers = pure tt
  subscribe_saga (some subscribe) name handlers = subscribe name handlers

  abbrev pub register_on : Option String → HandlerClass W P → M S (Unit {0})
  register_on none c = pure tt
  register_on (some channel) c =
      if channel == ""
      then pure tt
      else (when c.has_command_handler
            (factories.subscribe_commands c.name (add_methods channel c.methods []))
          >> when c.is_saga_command_handler (
              subscribe_saga factories.subscribe_saga_commands c.name
                (add_methods channel c.methods [])))

  unfoldable pub register_commands : HandlerClass W P → M S (Unit {0})
  unfolding add_methods
  register_commands c = register_on c.from_channel c

  abbrev pub register_events_of : Option String → HandlerClass W P → M S (Unit {0})
  register_events_of none c = pure tt
  register_events_of (some type) c =
      factories.subscribe_events c.name (add_event_methods type c.methods [])

  unfoldable pub register_events : HandlerClass W P → M S (Unit {0})
  unfolding add_event_methods
  register_events c = register_events_of c.aggregate_type c

  -- `onModuleInit`: the classes that the code starts together come one after another.
  unfoldable pub on_module_init : List (HandlerClass W P) → List (HandlerClass W P) → M S (Unit {0})
  unfolding register_commands register_events
  on_module_init commands events s =
      first_error (all_each register_commands commands s).0
        (all_each register_events events (all_each register_commands commands s).1)
