-- ===== src/Saga/Participant.antt =====
-- packages/sagas/participant: utils.ts and saga-command-dispatcher.ts. The dispatcher overrides two
-- methods of the dispatcher of commands, which it calls for the rest.
use nest_convoy.Prelude.{String, Bool, Option, none, some, List, [], ◌∷◌, map, if◌then◌else◌, ◌==◌}
use nest_convoy.Prelude.Result.{Result, ok, ◌>>=◌ as then_result}
use nest_convoy.Prelude.Effect.{M, ◌>>=◌, pure, throw, lift, try_catch}
use nest_convoy.Common.Exceptions.{Exception, stash_message_required, cannot_claim_lock}
use nest_convoy.Messaging.Message.{Message, get_required_header}
use nest_convoy.Messaging.Builder.{with_message, with_header, build}
use nest_convoy.Messaging.Producer.{ConvoyMessageProducer}
use nest_convoy.Commands.Headers.{command_type, saga_type_header, saga_id_header, reply_locked}
use nest_convoy.Commands.Handler.{Classes, CommandMessage, CommandHandler}
use nest_convoy.Commands.Dispatcher.{invoke_handler, handle_command_message}
use nest_convoy.Saga.Locks.{SagaLockManager}

module _ {P : Type 0} where
  pub is_unlock_message : Message P → Result Bool
  is_unlock_message m =
      then_result (get_required_header command_type m) (λ type. ok (type == "SagaUnlockCommand"))

  unfoldable pub get_saga_type : Message P → Result String
  get_saga_type m = get_required_header saga_type_header m

  unfoldable pub get_saga_id : Message P → Result String
  get_saga_id m = get_required_header saga_id_header m

  -- The type of the command; the resource is only in a comment.
  pub get_command_target : Message P → Result String
  get_command_target m = get_required_header command_type m

  unfoldable pub add_locked_header : List (Message P) → String → List (Message P)
  add_locked_header messages locked =
      map (λ (m : Message P). build (with_header reply_locked locked (with_message m))) messages

  -- The lock of the first message that has one.
  unfoldable pub get_lock : List (Message P) → Option String
  get_lock [] = none
  get_lock (m ∷ ms) = let rest = get_lock ms in elim m.lock_target [ none ↦ rest | some t ↦ some t ]

module _ {S P : Type 0} (classes : Classes P) (producer : ConvoyMessageProducer S P)
    (locks : SagaLockManager S P) where
  -- The lock that is claimed before the handler runs.
  claim_pre_lock : CommandHandler S P → CommandMessage P → String → String → M S (Option String)
  claim_pre_lock handler cm saga_type saga_id = elim handler.pre_lock [
    | none ↦ pure none
    | some pre_lock ↦ pre_lock cm >>= λ target.
        locks.claim_lock saga_type saga_id target >>= λ claimed.
        if claimed then pure (some target) else throw (stash_message_required target)
  ]

  claim_reply_lock : String → String → List (Message P) → Option String → M S (List (Message P))
  claim_reply_lock saga_type saga_id messages none = pure messages
  claim_reply_lock saga_type saga_id messages (some target) =
      locks.claim_lock saga_type saga_id target >>= λ claimed.
      if claimed then pure (add_locked_header messages target) else throw cannot_claim_lock

  -- An empty target of the lock counts as none.
  lock_replies : String → String → List (Message P) → Option String → M S (List (Message P))
  lock_replies saga_type saga_id messages none =
      claim_reply_lock saga_type saga_id messages (get_lock messages)
  lock_replies saga_type saga_id messages (some locked) =
      if locked == ""
      then claim_reply_lock saga_type saga_id messages (get_lock messages)
      else pure (add_locked_header messages locked)

  pub saga_invoke : CommandHandler S P → CommandMessage P → M S (List (Message P))
  unfolding claim_pre_lock lock_replies claim_reply_lock
  saga_invoke handler cm = do
    saga_type ← lift (get_saga_type cm.message)
    saga_id ← lift (get_saga_id cm.message)
    locked ← claim_pre_lock handler cm saga_type saga_id
    messages ← invoke_handler classes producer handler cm
    lock_replies saga_type saga_id messages locked

  -- `super.handleMessage`, which calls the `invoke` above.
  pub super_handle_message : List (CommandHandler S P) → Message P → M S (Unit {0})
  super_handle_message handlers m = handle_command_message classes producer saga_invoke handlers m

  redeliver : List (CommandHandler S P) → Option (Message P) → M S (Unit {0})
  redeliver handlers none = pure tt
  redeliver handlers (some m) = super_handle_message handlers m

  stash_or_throw : String → String → String → Message P → Exception → M S (Unit {0})
  stash_or_throw saga_type saga_id target m (stash_message_required _) =
      locks.stash_message saga_type saga_id target m
  stash_or_throw saga_type saga_id target m e = throw e

  pub handle_participant_message : List (CommandHandler S P) → Message P → M S (Unit {0})
  unfolding redeliver stash_or_throw
  handle_participant_message handlers m = do
    saga_type ← lift (get_saga_type m)
    saga_id ← lift (get_saga_id m)
    target ← lift (get_command_target m)
    unlocking ← lift (is_unlock_message m)
    if unlocking
        then (locks.unlock saga_id target >>= redeliver handlers)
        else try_catch (super_handle_message handlers m) (stash_or_throw saga_type saga_id target m)
