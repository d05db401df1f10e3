-- ===== src/Saga/Correlation.antt =====
-- The way of a saga's command to a participant and of its reply back: packages/sagas/orchestration
-- (saga-command-producer.ts, saga-manager.ts), packages/commands (command-producer.ts,
-- command-dispatcher.ts, correlate-message-headers.ts) and packages/messaging
-- (message-producer.ts) together.
use nest_convoy.Prelude.{ap, String, true, ◌≡◌, refl, ◌∙◌, Option, none, some, []}
use nest_convoy.Prelude.Result.{ok}
use nest_convoy.Messaging.Headers.{MessageHeaders, get, set}
use nest_convoy.Messaging.Headers.Laws.{IsMap, get-merge, or_else, set-IsMap}
use nest_convoy.Messaging.Message.{id_header, Message, get_header}
use nest_convoy.Messaging.Builder.{with_extra_headers}
use nest_convoy.Messaging.ChannelMapping.{ConvoyChannelMapping}
use nest_convoy.Messaging.Producer.{stamped}
use nest_convoy.Messaging.Producer.Laws.{get-stamped, stamped-IsMap}
use nest_convoy.Commands.Command.{CommandWithDestination}
use nest_convoy.Commands.Headers.{
  correlate_message_headers, saga_id_header, saga_type_header, reply_saga_id, reply_saga_type,
  header_starts_with_command_prefix, in_reply_to,
}
use nest_convoy.Commands.Headers.Laws.{
  correlate_message_headers_total, renamed, correlated, correlated-IsMap, get-correlated,
  get-correlated-in_reply_to,
}
use nest_convoy.Commands.Producer.{create_message}
use nest_convoy.Commands.Producer.Laws.{resource_or_other, get-create_message, create_message-IsMap}
use nest_convoy.Commands.Dispatcher.{correlate_reply}
use nest_convoy.Saga.Instance.{id_text}
use nest_convoy.Saga.Manager.{saga_headers}

saga_headers-IsMap :
    (saga_type : String) (saga_id : Option String) → IsMap (saga_headers saga_type saga_id)
unfolding saga_headers
saga_headers-IsMap saga_type saga_id = set-IsMap _ _ _ (set-IsMap _ _ [] tt)

saga_headers-type :
    (saga_type : String) (saga_id : Option String)
    → get saga_type_header (saga_headers saga_type saga_id) ≡ some saga_type
unfolding saga_headers get set
saga_headers-type saga_type saga_id = refl

saga_headers-id :
    (saga_type : String) (saga_id : Option String)
    → get saga_id_header (saga_headers saga_type saga_id) ≡ some (id_text saga_id)
unfolding saga_headers get set
saga_headers-id saga_type saga_id = refl

module _ {P : Type 0} (saga_type saga_id : String) (mapping : ConvoyChannelMapping)
    (c : CommandWithDestination P) (reply_channel message_id date : String) where
  -- The message of a saga's command as it leaves the producer.
  abbrev pub sent_command : Message P
  sent_command = stamped mapping message_id c.channel date (
      create_message c.channel c.command reply_channel (saga_headers saga_type (some saga_id))
        c.resource)

  sent_command-IsMap : IsMap sent_command.headers
  sent_command-IsMap = stamped-IsMap mapping message_id c.channel date _ (
      create_message-IsMap c.channel c.command reply_channel (saga_headers saga_type (some saga_id))
        c.resource)

  sent_saga_type : get saga_type_header sent_command.headers ≡ some saga_type
  sent_saga_type =
      get-stamped saga_type_header mapping message_id c.channel date _
      ∙ get-create_message saga_type_header c.channel c.command reply_channel _ c.resource
          (saga_headers-IsMap saga_type (some saga_id))
      ∙ resource_or_other c.resource saga_type_header _ refl
      ∙ ap (λ (o : Option String). or_else o none) (saga_headers-type saga_type (some saga_id))

  sent_saga_id : get saga_id_header sent_command.headers ≡ some saga_id
  sent_saga_id =
      get-stamped saga_id_header mapping message_id c.channel date _
      ∙ get-create_message saga_id_header c.channel c.command reply_channel _ c.resource
          (saga_headers-IsMap saga_type (some saga_id))
      ∙ resource_or_other c.resource saga_id_header _ refl
      ∙ ap (λ (o : Option String). or_else o none) (saga_headers-id saga_type (some saga_id))

  module _ (r : Message P) (replied : IsMap r.headers) where
    -- The reply of a participant, whatever its own headers are.
    abbrev pub reply_of : Message P
    reply_of = correlate_reply (correlated sent_command.headers) r

    reply_header :
        (k : String)
        → header_starts_with_command_prefix k ≡ true
        → {v : String} → get k sent_command.headers ≡ some v
        → get_header (renamed k) reply_of ≡ v
    unfolding get_header with_extra_headers
    reply_header k p e = rw (
      get-merge (renamed k) r.headers (correlated sent_command.headers) replied
          (correlated-IsMap _),
      get-correlated k sent_command.headers sent_command-IsMap p,
      e,
    )

    answered : get_header in_reply_to reply_of ≡ message_id
    unfolding get_header with_extra_headers
    answered = rw (
      get-merge in_reply_to r.headers (correlated sent_command.headers) replied
          (correlated-IsMap _),
      get-correlated-in_reply_to sent_command.headers,
      get-stamped id_header mapping message_id c.channel date (
          create_message c.channel c.command reply_channel (saga_headers saga_type (some saga_id))
            c.resource),
    )

    -- The correlation of a saga's command never fails, and a reply that a participant correlates with
    -- it, whatever the reply's own headers are, finds its way back: the saga's type, and so the
    -- manager, and the saga's instance are those of the command, and the reply names the message
    -- that it answers.
    pub reply_reaches_saga :
        (c : MessageHeaders) × (correlate_message_headers sent_command.headers ≡ ok c)
        × (get_header reply_saga_type (correlate_reply c r) ≡ saga_type)
        × (get_header reply_saga_id (correlate_reply c r) ≡ saga_id)
        × (get_header in_reply_to (correlate_reply c r) ≡ message_id)
    reply_reaches_saga = (
      correlated sent_command.headers,
      correlate_message_headers_total sent_command.headers,
      reply_header saga_type_header (unfold header_starts_with_command_prefix in refl)
          sent_saga_type,
      reply_header saga_id_header (unfold header_starts_with_command_prefix in refl) sent_saga_id,
      answered,
    )
