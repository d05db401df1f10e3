-- ===== src/Saga/Manager/Branches.antt =====
-- `packages/sagas/orchestration/saga-manager.ts` on its branches.
use nest_convoy.Prelude.{
  ℕ, suc, ◌≡◌, refl, Bool, true, false, Option, some, List, ◌==◌, Bool-cases, inl, inr,
}
use nest_convoy.Prelude.Result.{ok}
use nest_convoy.Prelude.Effect.{M, ◌>>=◌}
use nest_convoy.Common.Exceptions.{Exception}
use nest_convoy.Messaging.Message.{Message, get_header, get_required_header, has_header, to_string}
use nest_convoy.Messaging.Headers.{get, set}
use nest_convoy.Messaging.Builder.{with_header, with_reference}
use nest_convoy.Commands.Headers.{reply_saga_type, reply_saga_id}
use nest_convoy.Saga.State.{SagaExecutionState, start_compensating}
use nest_convoy.Saga.State.Json.{encode_execution_state}
use nest_convoy.Saga.Actions.{SagaActions}
use nest_convoy.Saga.Step.{SagaStep, local_step, is_success}
use nest_convoy.Saga.Definition.{execute_next_step, at}
use nest_convoy.Saga.Definition.Local.{handle_reply-local_step}
use nest_convoy.Saga.Instance.{SagaInstance}
use nest_convoy.Saga.Manager.{
  SagaManager, process_actions_or, on_data, create_failure_message, create_success_message,
  outcome_message, definition_reply, get_saga_definition, process_actions,
  is_reply_for_this_saga_type, handle_saga_reply, handle_saga_message,
}

module _ {S D P : Type 0} (g : SagaManager S D P) where
  -- A message, of any type of its own, that is a reply to a saga of another type, or to none, is
  -- ignored: no saga is read, moved or saved.
  pub handle_saga_message_other :
      (rounds : ℕ) (m : Message P) (st : S)
      → to_string m ≡ ok tt
      → (get_header reply_saga_type m == g.saga.saga_type) ≡ false
      → handle_saga_message rounds g m st ≡ (ok tt, st)
  unfolding handle_saga_message handle_saga_reply is_reply_for_this_saga_type
  handle_saga_message_other rounds m st text other =
      elim (Bool-cases (has_header reply_saga_id m)) [
        | inl answers ↦ rw (text, answers, other) refl
        | inr plain ↦ rw (text, plain) refl
      ]

  -- The replies that the manager makes for a local step tell of what they are made for.
  create_failure_message-is_success :
      (empty : P) → is_success (create_failure_message empty) ≡ ok false
  unfolding is_success create_failure_message outcome_message get_required_header get_header get set
      with_header with_reference
  create_failure_message-is_success empty = refl

  create_success_message-is_success :
      (empty : P) → is_success (create_success_message empty) ≡ ok true
  unfolding is_success create_success_message outcome_message get_required_header get_header get set
      with_header with_reference
  create_success_message-is_success empty = refl

  module _ (steps : List (SagaStep D P)) (defined : g.saga.saga_definition ≡ some steps)
      (s : SagaExecutionState) (handler : M D (Unit {0})) (compensation : Option (M D Bool))
      (here : at steps s.currently_executing ≡ some (local_step handler compensation)) where
    -- The exception of a local step is not thrown on: it turns a saga that goes forward round. No
    -- command is sent and the instance is not saved; the round ends with the actions of the first
    -- compensation behind the step.
    pub process_actions_turns_round :
        (rounds : ℕ) (inst : SagaInstance D) (d : D) (a : SagaActions P) (e : Exception) (st : S)
        → a.local_exception ≡ some e
        → a.updated_state ≡ some (encode_execution_state s)
        → s.compensating ≡ false
        → process_actions (suc rounds) g inst d a st
          ≡ (on_data (execute_next_step steps (start_compensating s)) d >>= λ next.
                process_actions rounds g inst next.1 next.0)
              st
    unfolding process_actions process_actions_or definition_reply get_saga_definition
    process_actions_turns_round rounds inst d a e st thrown saved forward =
        rw
          (
            thrown,
            saved,
            defined,
            handle_reply-local_step g.parse_reply steps s handler compensation
                (create_failure_message g.empty_payload) false d here
                (create_failure_message-is_success g.empty_payload),
            forward,
          )
          refl
