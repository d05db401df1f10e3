-- ===== src/Commands/Dispatcher/Laws.antt =====
-- `handleMessage` of packages/commands/consumer/command-dispatcher.ts on its branches.
use nest_convoy.Prelude.{String, false, List, map}
use nest_convoy.Prelude.Result.{Result}
use nest_convoy.Prelude.Effect.{M, ◌>>◌, pure}
use nest_convoy.Messaging.Message.{Message}
use nest_convoy.Messaging.Producer.{ConvoyMessageProducer, send_batch}
use nest_convoy.Commands.Headers.Laws.{correlated}
use nest_convoy.Commands.Handler.{Classes, CommandMessage, CommandHandler}
use nest_convoy.Commands.Dispatcher.{correlate_reply}

module _ {W P : Type 0} (classes : Classes P) (producer : ConvoyMessageProducer W P)
    (invoke : CommandHandler W P → CommandMessage P → M W (List (Message P)))
    (handlers : List (CommandHandler W P)) (m : Message P) where
  -- The command that a handler is given.
  abbrev pub command_message : CommandHandler W P → P → CommandMessage P
  command_message handler p = record {
    command = record { constructor_name = handler.command_name; plain_form = p };
    correlation_headers = correlated m.headers;
    message = m;
  }

  -- Replies go out in one batch, each with the headers of the correlation.
  abbrev pub sent_replies : String → List (Message P) → M W (Unit {0})
  sent_replies channel replies =
      send_batch producer channel (map (correlate_reply (correlated m.headers)) replies) false
      >> pure tt
