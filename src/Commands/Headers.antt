-- ===== src/Commands/Headers.antt =====
-- packages/commands/common/command-message-headers.ts, reply-message-headers.ts and
-- correlate-message-headers.ts, packages/sagas/common/saga-command-headers.ts and
-- saga-reply-headers.ts.
pub mod Laws
use Prim.Native.String.{◌++◌, slice, len}
use text.Mathlib.Text.{starts_with}
use nest_convoy.Prelude.{String, Bool, Option, none, some, List, [], ◌∷◌, if◌then◌else◌, filter}
use nest_convoy.Prelude.Result.{Result, ok, err, ◌>>=◌}
use nest_convoy.Common.Exceptions.{runtime}
use nest_convoy.Messaging.Headers.{MessageHeaders, get, set, from_entries}
use nest_convoy.Messaging.Message.{id_header}

abbrev pub command_header_prefix : String
command_header_prefix = "command_"

abbrev pub command_type : String
command_type = "command_type"

abbrev pub resource_header : String
resource_header = "command_resource"

-- The prefix ends in `_` and the name begins with one.
abbrev pub command_destination : String
command_destination = "command__destination"

abbrev pub command_reply_prefix : String
command_reply_prefix = "commandreply_"

abbrev pub reply_to : String
reply_to = "command_reply_to"

unfoldable pub header_starts_with_command_prefix : String → Bool
header_starts_with_command_prefix header = starts_with header command_header_prefix

-- What follows the prefix of a header.
abbrev pub after_prefix : String → String
after_prefix header = slice header (len command_header_prefix) (len header)

unfoldable pub in_reply : String → Result String
unfolding header_starts_with_command_prefix
in_reply header =
    if header_starts_with_command_prefix header
    then ok (command_reply_prefix ++ after_prefix header)
    else err runtime

-- `ReplyMessageHeaders`.
abbrev pub reply_type : String
reply_type = "reply_type"

abbrev pub in_reply_to : String
in_reply_to = "reply_to_message_id"

abbrev pub reply_outcome : String
reply_outcome = "reply_outcome"

-- `SagaCommandHeaders` and `SagaReplyHeaders`; `Laws` computes the latter by `in_reply`.
abbrev pub saga_type_header : String
saga_type_header = "command_saga_type"

abbrev pub saga_id_header : String
saga_id_header = "command_saga_id"

abbrev pub reply_saga_type : String
reply_saga_type = "commandreply_saga_type"

abbrev pub reply_saga_id : String
reply_saga_id = "commandreply_saga_id"

abbrev pub reply_locked : String
reply_locked = "saga_locked_target"

-- `.map(([key, value]) => [inReply(key), value])`.
unfoldable pub in_reply_all : MessageHeaders → Result MessageHeaders
in_reply_all [] = ok []
in_reply_all ((k, v) ∷ h) = do k' ← in_reply k; rest ← in_reply_all h; ok ((k', v) ∷ rest)

-- `headers.get(Message.ID)!` goes through `String(value)`.
abbrev pub id_text : Option String → String
id_text none = "undefined"
id_text (some v) = v

unfoldable pub correlate_message_headers : MessageHeaders → Result MessageHeaders
correlate_message_headers headers = do
  entries ← in_reply_all (filter (λ e. header_starts_with_command_prefix e.0) headers)
  ok (set in_reply_to (id_text (get id_header headers)) (from_entries entries))
