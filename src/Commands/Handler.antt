-- ===== src/Commands/Handler.antt =====
-- packages/commands/consumer: command-handler.ts, command-handlers.ts, command-message.ts, and the
-- table of handlers of packages/common/handlers.ts. The names of an application's classes, the way
-- its objects are parsed and what its methods do are parameters.
pub mod Laws
use nest_convoy.Prelude.{
  String, Bool, true, false, Option, none, some, List, [], ◌∷◌, ◌++◌, map, if◌then◌else◌, ◌==◌,
  codes,
}
use nest_convoy.Prelude.Result.{Result, ok, err, ◌>>=◌}
use nest_convoy.Prelude.Effect.{M}
use nest_convoy.Common.Exceptions.{Exception}
use nest_convoy.Messaging.Headers.{MessageHeaders}
use nest_convoy.Messaging.Message.{Message, get_header, get_required_header}
use nest_convoy.Commands.Command.{Instance}
use nest_convoy.Commands.Headers.{command_type, resource_header}
use nest_convoy.Commands.Paths.{resource_matches}
use nest_convoy.Commands.Reply.{Target}

-- What the code asks of the application's classes and of the serialiser: the parsed object of a
-- class (`validatedPlainToClass`), the object that a thrown value is, the plain form of an object
-- without fields, the source text of a class and the `id` of an object.
pub record Classes (P : Type 0) : Type 0 where
  pub plain_to_class : String → P → Result P
  pub thrown : Exception → Instance P
  pub empty : P
  pub class_source : String → String
  pub id_of : P → Target

pub record CommandMessage (P : Type 0) : Type 0 where
  pub command : Instance P
  pub correlation_headers : MessageHeaders
  pub message : Message P

-- What a handler's method may return for a reply: `undefined`, an object or a message.
pub data Reply (P : Type 0) : Type 0 where
  nothing : Reply P
  instance_reply : Instance P → Reply P
  message_reply : Message P → Reply P

-- One reply, or an array of them.
pub data HandlerResult (P : Type 0) : Type 0 where
  single : Reply P → HandlerResult P
  several : List (Reply P) → HandlerResult P

-- A `SagaCommandHandler` is one that may have a `preLock`; it gives the lock's target.
pub record CommandHandler (W P : Type 0) : Type 0 where
  pub channel : String
  pub command_name : String
  pub invoke : CommandMessage P → M W (HandlerResult P)
  pub with_lock : Bool
  pub resource : Option String
  pub pre_lock : Option (CommandMessage P → M W String)

module _ {W P : Type 0} where
  unfoldable pub command_type_matches : CommandHandler W P → Message P → Result Bool
  command_type_matches handler m =
      get_required_header command_type m >>= λ type. ok (handler.command_name == type)

  -- A handler without a resource takes the messages of all.
  unfoldable pub handler_resource_matches : CommandHandler W P → Message P → Result Bool
  handler_resource_matches handler m = elim handler.resource [
    | none ↦ ok true
    | some resource ↦
        if resource == ""
        then ok true
        else resource_matches (codes (get_header resource_header m)) (codes resource)
  ]

  unfoldable pub handles : CommandHandler W P → Message P → Result Bool
  unfolding command_type_matches handler_resource_matches
  handles handler m = command_type_matches handler m >>= λ named.
      if named then handler_resource_matches handler m else ok false

  -- The first handler of the table that takes the message. A test that throws ends the search.
  unfoldable pub find_target_method :
      List (CommandHandler W P) → Message P → Result (Option (CommandHandler W P))
  find_target_method [] m = ok none
  find_target_method (handler ∷ handlers) m = handles handler m >>= λ taken.
      if taken then ok (some handler) else find_target_method handlers m

  unfoldable pub get_channels : List (CommandHandler W P) → List String
  get_channels handlers = map (λ handler. handler.channel) handlers
