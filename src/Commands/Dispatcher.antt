-- ===== src/Commands/Dispatcher.antt =====
-- packages/commands/consumer/command-dispatcher.ts. `invoke` is a method that the dispatcher of the
-- sagas overrides, so the handler of messages takes it as an argument.
pub mod Laws
use nest_convoy.Prelude.{
  String, Bool, true, false, Option, none, some, List, [], ◌∷◌, map, if◌then◌else◌,
}
use nest_convoy.Prelude.Effect.{M, ◌>>=◌, ◌>>◌, pure, throw, lift, for_each, try_catch}
use nest_convoy.Common.Exceptions.{Exception, missing_command_handler}
use nest_convoy.Messaging.Headers.{MessageHeaders}
use nest_convoy.Messaging.Message.{Message, id, get_required_header, to_string}
use nest_convoy.Messaging.Builder.{with_message, with_extra_headers, build}
use nest_convoy.Messaging.Producer.{ConvoyMessageProducer, send_batch}
use nest_convoy.Commands.Command.{Instance}
use nest_convoy.Commands.Headers.{reply_to, correlate_message_headers}
use nest_convoy.Commands.Handler.{
  Classes, CommandMessage, Reply, nothing, instance_reply, message_reply, HandlerResult, single,
  several, CommandHandler, find_target_method,
}
use nest_convoy.Commands.Reply.{
  with_success, with_failure, lock_target, class, saga_reply_with_success, saga_reply_with_failure,
}

module _ {P : Type 0} (classes : Classes P) where
  -- `withLock(command)`: the class of the command, and its identifier.
  abbrev pub lock_of : Instance P → String
  lock_of command =
      lock_target (class (classes.class_source command.constructor_name))
        (classes.id_of command.plain_form)

  abbrev reply_object : Reply P → Option (Instance P)
  reply_object (instance_reply i) = some i
  reply_object _ = none

  unfoldable pub success_message : Bool → Instance P → Reply P → Message P
  success_message locking command (message_reply m) = m
  success_message locking command reply =
      if locking
      then saga_reply_with_success (lock_of command) classes.empty (reply_object reply)
      else with_success classes.empty (reply_object reply)

  unfoldable pub failure_message : Bool → Instance P → Exception → Message P
  failure_message locking command e =
      if locking
      then saga_reply_with_failure (lock_of command) classes.empty (some (classes.thrown e))
      else with_failure classes.empty (some (classes.thrown e))

-- Each reply gets the headers of the correlation.
abbrev pub correlate_reply : {P : Type 0} → MessageHeaders → Message P → Message P
correlate_reply headers reply = build (with_extra_headers headers (with_message reply))

abbrev replies_of : {P : Type 0} → HandlerResult P → List (Reply P)
replies_of (single r) = r ∷ []
replies_of (several rs) = rs

module _ {W P : Type 0} (classes : Classes P) (producer : ConvoyMessageProducer W P) where
  -- The replies of a handler, or the one that tells what it threw.
  unfoldable pub invoke_handler : CommandHandler W P → CommandMessage P → M W (List (Message P))
  invoke_handler handler cm =
      try_catch
        (handler.invoke cm >>= λ result.
          pure (map (success_message classes handler.with_lock cm.command) (replies_of result)))
        (λ e. pure (failure_message classes handler.with_lock cm.command e ∷ []))

  pub send_replies : MessageHeaders → List (Message P) → String → M W (Unit {0})
  send_replies headers replies channel =
      send_batch producer channel (map (correlate_reply headers) replies) false >> pure tt

  pub handle_exception : Message P → String → Exception → M W (Unit {0})
  handle_exception m channel e = do
    headers ← lift (correlate_message_headers m.headers)
    send_replies headers (with_failure classes.empty (some (classes.thrown e)) ∷ []) channel

  log_reply : Message P → M W (Unit {0})
  log_reply m = lift (to_string m)

  -- The part of `handleMessage` under `try`: the parsed command is invoked and the replies logged.
  compute_replies :
      (CommandHandler W P → CommandMessage P → M W (List (Message P)))
      → CommandHandler W P
      → MessageHeaders
      → Message P
      → M W (Option (List (Message P)))
  compute_replies invoke handler headers m = do
    command ← lift (classes.plain_to_class handler.command_name m.payload)
    replies ← invoke handler (record {
      command = record { constructor_name = handler.command_name; plain_form = command };
      correlation_headers = headers;
      message = m;
    })
    for_each log_reply replies
    pure (some replies)

  -- `none` after an exception: its reply has been sent, and nothing else is.
  unless_failed : MessageHeaders → String → Option (List (Message P)) → M W (Unit {0})
  unless_failed headers channel none = pure tt
  unless_failed headers channel (some replies) = send_replies headers replies channel

  dispatch_to :
      (CommandHandler W P → CommandMessage P → M W (List (Message P)))
      → Message P
      → Option (CommandHandler W P)
      → M W (Unit {0})
  dispatch_to invoke m none = lift (id m) >> throw missing_command_handler
  dispatch_to invoke m (some handler) = do
    headers ← lift (correlate_message_headers m.headers)
    channel ← lift (get_required_header reply_to m)
    outcome ←
        try_catch (compute_replies invoke handler headers m)
          (λ e. lift (to_string m) >> handle_exception m channel e >> pure none)
    unless_failed headers channel outcome

  pub handle_command_message :
      (CommandHandler W P → CommandMessage P → M W (List (Message P)))
      → List (CommandHandler W P)
      → Message P
      → M W (Unit {0})
  unfolding dispatch_to compute_replies unless_failed
  handle_command_message invoke handlers m =
      lift (find_target_method handlers m) >>= dispatch_to invoke m
