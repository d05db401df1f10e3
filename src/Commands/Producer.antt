-- ===== src/Commands/Producer.antt =====
-- packages/commands/producer/command-producer.ts.
pub mod Laws
use nest_convoy.Prelude.{String, Bool, true, false, Option, none, some, List, [], ◌∷◌, map}
use nest_convoy.Prelude.Effect.{M, ◌>>=◌, pure, throw}
use nest_convoy.Common.Exceptions.{type_error}
use nest_convoy.Messaging.Headers.{MessageHeaders}
use nest_convoy.Messaging.Message.{Message}
use nest_convoy.Messaging.Builder.{
  MessageBuilder, with_payload, with_reference, with_extra_headers, with_header, build,
}
use nest_convoy.Messaging.Producer.{ConvoyMessageProducer, send_batch}
use nest_convoy.Commands.Headers.{command_destination, command_type, reply_to, resource_header}
use nest_convoy.Commands.Command.{Instance}

abbrev with_resource : {P : Type 0} → Option String → MessageBuilder P → MessageBuilder P
with_resource none b = b
with_resource (some resource) b = with_header resource_header resource b

unfoldable pub create_message :
    {P : Type 0} → String → Instance P → String → MessageHeaders → Option String → Message P
create_message channel command reply headers resource = build (
    with_resource resource (
      with_header reply_to reply (
        with_header command_type command.constructor_name (
          with_header command_destination channel
            (with_extra_headers headers (with_reference command (with_payload command)))))))

module _ {W P : Type 0} where
  unfoldable pub send_commands_batch :
      ConvoyMessageProducer W P
      → String
      → List (Instance P)
      → String
      → MessageHeaders
      → Option String
      → M W (List (Message P))
  send_commands_batch p channel commands reply headers resource =
      send_batch p channel
        (map (λ command. create_message channel command reply headers resource) commands) false

  -- `const [message] = ...`: the batch of one command has one message.
  abbrev first : List (Message P) → M W (Message P)
  first [] = throw type_error
  first (m ∷ ms) = pure m

  unfoldable pub send_command :
      ConvoyMessageProducer W P
      → String
      → Instance P
      → String
      → MessageHeaders
      → Option String
      → M W (Message P)
  unfolding send_commands_batch
  send_command p channel command reply headers resource =
      send_commands_batch p channel (command ∷ []) reply headers resource >>= first
