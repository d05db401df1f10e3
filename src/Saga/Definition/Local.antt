-- ===== src/Saga/Definition/Local.antt =====
-- Replies to local steps: packages/sagas/orchestration/dsl/local-step.ts under
-- nest-saga-definition.ts.
use nest_convoy.Prelude.{◌≡◌, refl, ◌∙◌, String, Bool, Option, some, List, if◌then◌else◌}
use nest_convoy.Prelude.Result.{Result, ok}
use nest_convoy.Prelude.Effect.{M, throw}
use nest_convoy.Common.Exceptions.{unsupported_operation}
use nest_convoy.Messaging.Message.{Message}
use nest_convoy.Saga.State.{SagaExecutionState, start_compensating}
use nest_convoy.Saga.State.Json.{encode_execution_state}
use nest_convoy.Saga.Step.{SagaStep, local_step, is_success, get_reply, is_successful_reply}
use nest_convoy.Saga.Definition.{
  at, handle_reply, reply_to_step, invoke_reply_handler, execute_next_step,
}
use nest_convoy.Saga.Definition.Replies.{handle_reply-step}

module _ {D P : Type 0} (plain_to_class : String → P → Result P) where
  -- A local step has no reply handler, so the reply to it changes no data. A success moves the saga
  -- on, a failure turns it round, and a failure of a compensation is an exception.
  pub handle_reply-local_step :
      (steps : List (SagaStep D P)) (s : SagaExecutionState) (handler : M D (Unit {0}))
      (compensation : Option (M D Bool)) (m : Message P) (b : Bool) (d : D)
      → at steps s.currently_executing ≡ some (local_step handler compensation)
      → is_success m ≡ ok b
      → handle_reply plain_to_class steps (encode_execution_state s) m d
        ≡ (if b
              then execute_next_step steps s
              else if s.compensating
              then throw unsupported_operation
              else execute_next_step steps (start_compensating s))
            d
  unfolding reply_to_step get_reply invoke_reply_handler is_successful_reply
  handle_reply-local_step steps s handler compensation m b d here read =
      handle_reply-step plain_to_class steps s (local_step handler compensation) m d here
      ∙ rw read refl
