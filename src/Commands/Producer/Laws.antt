-- ===== src/Commands/Producer/Laws.antt =====
-- The headers of the message that packages/commands/producer/command-producer.ts creates.
use nest_convoy.Prelude.{
  String, Bool, true, false, ◌≡◌, refl, Option, none, some, [], if◌then◌else◌, ◌==◌,
}
use nest_convoy.Messaging.Headers.{MessageHeaders, get, set}
use nest_convoy.Messaging.Headers.Laws.{IsMap, get-set, get-merge, or_else, set-IsMap, merge-IsMap}
use nest_convoy.Messaging.Message.{type_header}
use nest_convoy.Messaging.Builder.{with_payload, with_reference, with_extra_headers, with_header}
use nest_convoy.Commands.Headers.{command_destination, command_type, reply_to, resource_header}
use nest_convoy.Commands.Command.{Instance}
use nest_convoy.Commands.Producer.{create_message}

-- What the command itself gives to its message.
abbrev type_only : String → MessageHeaders
type_only name = set type_header name (set type_header name [])

abbrev pub resource_or : Option String → String → Option String → Option String
resource_or none j o = o
resource_or (some r) j o = if resource_header == j then some r else o

abbrev pub type_value : String → String → Option String
type_value name j = if type_header == j then some name else none

written_twice :
    (b : Bool) (x j : String)
    → (if b then some x else if b then some x else get j []) ≡ (if b then some x else none)
unfolding get
written_twice true x j = refl
written_twice false x j = refl

type_only-IsMap : (name : String) → IsMap (type_only name)
type_only-IsMap name = set-IsMap _ _ _ (set-IsMap _ _ [] tt)

-- The resource is a header of its own.
pub resource_or_other :
    (r : Option String) (j : String) (o : Option String)
    → (resource_header == j) ≡ false
    → resource_or r j o ≡ o
resource_or_other none j o e = refl
resource_or_other (some r) j o e = rw e

module _ {P : Type 0} where
  -- Every header of a created command: the channel, the command's type, the channel of the replies
  -- and the resource, if there is one, then the extra headers, then the type of the payload.
  pub get-create_message :
      (j channel : String) (command : Instance P) (reply : String) (headers : MessageHeaders)
      (resource : Option String)
      → IsMap headers
      → get j (create_message channel command reply headers resource).headers
        ≡ resource_or resource j (
            if reply_to == j
            then some reply
            else if command_type == j
            then some command.constructor_name
            else if command_destination == j
            then some channel
            else or_else (get j headers) (type_value command.constructor_name j))
  unfolding create_message with_header with_extra_headers with_reference with_payload
  get-create_message j channel command reply headers none m = simp (
    get-set,
    get-merge j (type_only command.constructor_name) headers (type_only-IsMap _) m,
    written_twice,
  )
  get-create_message j channel command reply headers (some r) m = simp (
    get-set,
    get-merge j (type_only command.constructor_name) headers (type_only-IsMap _) m,
    written_twice,
  )

  pub create_message-IsMap :
      (channel : String) (command : Instance P) (reply : String) (headers : MessageHeaders)
      (resource : Option String)
      → IsMap (create_message channel command reply headers resource).headers
  unfolding create_message with_header with_extra_headers with_reference with_payload
  create_message-IsMap channel command reply headers none =
      set-IsMap _ _ _ (set-IsMap _ _ _ (set-IsMap _ _ _ (merge-IsMap _ headers)))
  create_message-IsMap channel command reply headers (some r) =
      set-IsMap _ _ _ (set-IsMap _ _ _ (set-IsMap _ _ _ (set-IsMap _ _ _ (merge-IsMap _ headers))))
