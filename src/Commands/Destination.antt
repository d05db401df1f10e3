-- ===== src/Commands/Destination.antt =====
-- packages/commands/consumer/command-with-destination-builder.ts. A builder is a value. The path
-- that `forResource` makes of a pattern is `for_resource` of Paths.
use nest_convoy.Prelude.{String, ◌==◌, Option, none, some, [], if◌then◌else◌}
use nest_convoy.Prelude.Result.{Result, ok, err}
use nest_convoy.Common.Exceptions.{error}
use nest_convoy.Messaging.Headers.{MessageHeaders}
use nest_convoy.Commands.Command.{Instance, CommandWithDestination}

pub record CommandWithDestinationBuilder (P : Type 0) : Type 0 where
  pub builder_command : Instance P
  pub builder_headers : Option MessageHeaders
  pub builder_resource : Option String
  pub destination_channel : Option String

abbrev headers_or_none : Option MessageHeaders → MessageHeaders
headers_or_none none = []
headers_or_none (some h) = h

module _ {P : Type 0} where
  abbrev pub send_builder : Instance P → CommandWithDestinationBuilder P
  send_builder command = record {
    builder_command = command;
    builder_headers = none;
    builder_resource = none;
    destination_channel = none;
  }

  unfoldable pub to : String → CommandWithDestinationBuilder P → CommandWithDestinationBuilder P
  to channel b = record b { destination_channel = some channel }

  unfoldable pub with_command_headers :
      MessageHeaders → CommandWithDestinationBuilder P → CommandWithDestinationBuilder P
  with_command_headers headers b = record b { builder_headers = some headers }

  -- A channel that is missing or empty is refused.
  unfoldable pub build_command : CommandWithDestinationBuilder P → Result (CommandWithDestination P)
  build_command b = elim b.destination_channel [
    | none ↦ err error
    | some channel ↦
        if channel == ""
        then err error
        else ok (record {
          channel = channel;
          command = b.builder_command;
          resource = b.builder_resource;
          extra_headers = headers_or_none b.builder_headers;
        })
  ]
