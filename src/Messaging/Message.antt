-- ===== src/Messaging/Message.antt =====
-- packages/messaging/common/message.ts and exceptions.ts. The payload is a plain object of the
-- type `P`, which stands for whatever the serialiser of the application produces.
-- A `SagaReplyMessage` is a message with a lock target; `build()` and the constructor of `Message`
-- give messages without one.
pub mod Laws
use nest_convoy.Prelude.{
  String, Bool, true, false, Option, none, some, List, ℕ, zero, suc, if◌then◌else◌, ◌==◌, not,
}
use nest_convoy.Prelude.Result.{Result, ok, err, ◌>>=◌, ◌>>◌}
use nest_convoy.Common.Exceptions.{Exception, missing_message_header, range_error}
use nest_convoy.Messaging.Headers.{MessageHeaders, get, set, delete, has}

pub record Message (P : Type 0) : Type 0 where
  pub payload : P
  pub headers : MessageHeaders
  pub lock_target : Option String

abbrev pub id_header : String
id_header = "ID"

abbrev pub destination_header : String
destination_header = "DESTINATION"

abbrev pub date_header : String
date_header = "DATE"

abbrev pub type_header : String
type_header = "type"

-- `new Message(payload, headers)`.
abbrev pub plain : {P : Type 0} → P → MessageHeaders → Message P
plain p h = record { payload = p; headers = h; lock_target = none }

abbrev get_or_default : Option String → String → String
get_or_default (some v) d = v
get_or_default none d = d

-- The value of a header, `''` where it is missing.
unfoldable pub get_header : {P : Type 0} → String → Message P → String
get_header name m = get_or_default (get name m.headers) ""

-- `getRequiredHeader` with a call stack that has room for `depth` more calls. The message of the
-- exception is `message.toString()`, which reads the type by `getRequiredHeader` again.
unfoldable pub required_header_at : {P : Type 0} → ℕ → String → Message P → Result String
required_header_at zero name m = err range_error
required_header_at (suc depth) name m =
    let exception = required_header_at depth type_header m >> err (missing_message_header name) in
    if get_header name m == "" then exception else ok (get_header name m)

-- The same without the call stack; `Message.Laws` has their agreement.
unfoldable pub get_required_header : {P : Type 0} → String → Message P → Result String
get_required_header name m =
    if get_header name m == ""
    then (if get_header type_header m == ""
        then err range_error
        else err (missing_message_header name))
    else ok (get_header name m)

-- `toString` for its exception; the text goes into a log.
unfoldable pub to_string : {P : Type 0} → Message P → Result (Unit {0})
unfolding get_required_header
to_string m = get_required_header type_header m >> ok tt

unfoldable pub id : {P : Type 0} → Message P → Result String
id m = get_required_header id_header m

unfoldable pub has_header : {P : Type 0} → String → Message P → Bool
has_header name m = has name m.headers

unfoldable pub set_header : {P : Type 0} → String → String → Message P → Message P
set_header name value m = record m { headers = set name value m.headers }

unfoldable pub remove_header : {P : Type 0} → String → Message P → Message P × Bool
remove_header name m = (record m { headers = delete name m.headers }, has name m.headers)
