-- ===== src/Commands/Reply.antt =====
-- packages/commands/consumer/command-handler-reply-builder.ts and saga-reply-lock: lock-target.ts,
-- saga-reply-message-builder.ts and saga-reply-message.ts.
use Prim.Native.String.{◌++◌}
use nest_convoy.Prelude.{String, Option, none, some}
use nest_convoy.Messaging.Message.{Message}
use nest_convoy.Messaging.Builder.{with_payload, with_reference, with_header, build}
use nest_convoy.Commands.Headers.{reply_outcome, reply_type}
use nest_convoy.Commands.Command.{Instance, CommandReplyOutcome, success, failure, outcome_text}

unfoldable pub with_reply : {P : Type 0} → Instance P → CommandReplyOutcome → Message P
with_reply reply outcome = build (
    with_header reply_type reply.constructor_name (
      with_header reply_outcome (outcome_text outcome) (with_reference reply (with_payload reply))))

abbrev pub or_instance : {P : Type 0} → Option (Instance P) → Instance P → Instance P
or_instance none d = d
or_instance (some i) d = i

-- `new Success()` and `new Failure()`; `empty` is the plain form of an object with no field.
abbrev pub success_reply : {P : Type 0} → P → Instance P
success_reply empty = record { constructor_name = "Success"; plain_form = empty }

abbrev pub failure_reply : {P : Type 0} → P → Instance P
failure_reply empty = record { constructor_name = "Failure"; plain_form = empty }

unfoldable pub with_success : {P : Type 0} → P → Option (Instance P) → Message P
unfolding with_reply
with_success empty reply = with_reply (or_instance reply (success_reply empty)) success

unfoldable pub with_failure : {P : Type 0} → P → Option (Instance P) → Message P
unfolding with_reply
with_failure empty reply = with_reply (or_instance reply (failure_reply empty)) failure

-- What a template literal and `typeof` see of an argument of `LockTarget`: nothing, a text, an
-- object of a class, or a class with the text of its source.
pub data Target : Type 0 where
  undefined : Target
  text : String → Target
  object : (constructor_name : String) → Target
  class : (source : String) → Target

abbrev target_text : Target → String
target_text undefined = "undefined"
target_text (text s) = s
target_text (object c) = "[object Object]"
target_text (class s) = s

-- The `target` of `new LockTarget(target, targetId)`.
unfoldable pub lock_target : Target → Target → String
lock_target (object a) (object b) = a ++ ("/" ++ b)
lock_target a b = target_text a ++ ("/" ++ target_text b)

-- `SagaReplyMessageBuilder`: the same message with a lock target.
unfoldable pub saga_reply_with_success : {P : Type 0} → String → P → Option (Instance P) → Message P
unfolding with_success
saga_reply_with_success lock empty reply = record (with_success empty reply) {
  lock_target = some lock;
}

unfoldable pub saga_reply_with_failure : {P : Type 0} → String → P → Option (Instance P) → Message P
unfolding with_failure
saga_reply_with_failure lock empty reply = record (with_failure empty reply) {
  lock_target = some lock;
}
