-- ===== src/Messaging/Builder.antt =====
-- packages/messaging/producer/message-builder.ts. A builder of a message shares the headers' map
-- with it in the source; here it is a value, and a message that a builder was made of is not used
-- again by the code.
use nest_convoy.Prelude.{[], String}
use nest_convoy.Messaging.Headers.{MessageHeaders, set, merge}
use nest_convoy.Messaging.Message.{Message, plain, type_header}
use nest_convoy.Commands.Command.{Instance}

pub record MessageBuilder (P : Type 0) : Type 0 where
  pub body : P
  pub headers : MessageHeaders

module _ {P : Type 0} where
  abbrev pub with_message : Message P → MessageBuilder P
  with_message m = record { body = m.payload; headers = m.headers }

  unfoldable pub with_reference : Instance P → MessageBuilder P → MessageBuilder P
  with_reference reference b = record b {
    headers = set type_header reference.constructor_name b.headers;
  }

  -- `withPayload` of an object: its plain form, with the object as the reference.
  unfoldable pub with_payload : Instance P → MessageBuilder P
  with_payload payload = with_reference payload (record { body = payload.plain_form; headers = [] })

  -- `withPayload` of a JSON text, as its parsed value.
  abbrev pub with_text_payload : P → MessageBuilder P
  with_text_payload parsed = record { body = parsed; headers = [] }

  unfoldable pub with_header : String → String → MessageBuilder P → MessageBuilder P
  with_header name value b = record b { headers = set name value b.headers }

  unfoldable pub with_extra_headers : MessageHeaders → MessageBuilder P → MessageBuilder P
  with_extra_headers headers b = record b { headers = merge b.headers headers }

  abbrev pub build : MessageBuilder P → Message P
  build b = plain b.body b.headers
