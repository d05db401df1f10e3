-- ===== src/Commands/Command.antt =====
-- packages/commands/common/command.ts, command-reply-outcome.ts and
-- packages/commands/consumer/command-with-destination.ts.
use nest_convoy.Prelude.{String, Option}
use nest_convoy.Messaging.Headers.{MessageHeaders}

-- An object of a class: the name of its constructor and its plain form (`classToPlain`).
pub record Instance (P : Type 0) : Type 0 where
  pub constructor_name : String
  pub plain_form : P

pub record CommandWithDestination (P : Type 0) : Type 0 where
  pub channel : String
  pub command : Instance P
  pub resource : Option String
  pub extra_headers : MessageHeaders

-- `CommandReplyOutcome`, with the text of each member.
pub data CommandReplyOutcome : Type 0 where
  success failure : CommandReplyOutcome

abbrev pub outcome_text : CommandReplyOutcome → String
outcome_text success = "SUCCESS"
outcome_text failure = "FAILURE"
