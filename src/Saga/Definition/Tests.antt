-- ===== src/Saga/Definition/Tests.antt =====
-- Runs of packages/sagas/orchestration/dsl/nest-saga-definition.ts on sagas of a step or three.
use nest_convoy.Prelude.{
  Bool, true, false, ◌≡◌, ◌≤◌, ◌+◌, refl, ℕ, suc, none, some, List, [], ◌∷◌, String, length,
}
use nest_convoy.Prelude.Int.{pos}
use nest_convoy.Prelude.Result.{Result, ok}
use nest_convoy.Prelude.Effect.{M, modify}
use nest_convoy.Messaging.Headers.{get}
use nest_convoy.Messaging.Message.{Message, plain, get_header, get_required_header}
use nest_convoy.Commands.Headers.{reply_outcome}
use nest_convoy.Saga.State.{
  SagaExecutionState, initial_state, make_end_state, start_compensating, next_state,
}
use nest_convoy.Saga.State.Json.{encode_execution_state}
use nest_convoy.Saga.State.Json.RoundTrip.{decode-encode}
use nest_convoy.Saga.Actions.{SagaActions}
use nest_convoy.Saga.Step.{
  SagaStep, local_step, create_step_outcome, has_action, has_compensation, get_reply,
  is_successful_reply, is_success,
}
use nest_convoy.Saga.Definition.{
  start, handle_reply, execute_next_step, execute_step, next_step_to_execute,
  make_end_state_saga_actions, search_steps, loop_body, reply_to_step, reply_at,
  invoke_reply_handler,
}
use nest_convoy.Saga.Definition.Search.{next_step_to_execute-first_wanted, first_wanted, ahead}
use nest_convoy.Saga.Definition.Executed.{Executed, Answered, start-Executed, handle_reply-Answered}
use nest_convoy.Saga.Definition.Termination.{none_yet, reply, Accepted-bound}

abbrev parse : String → ℕ → Result ℕ
parse name p = ok p

abbrev pub count : M ℕ (Unit {0})
count = modify suc

abbrev add_ten : M ℕ Bool
add_ten d = (ok true, d + 10)

abbrev add_hundred : M ℕ Bool
add_hundred d = (ok false, d + 100)

abbrev pub one_step : List (SagaStep ℕ ℕ)
one_step = local_step count none ∷ []

abbrev three_steps : List (SagaStep ℕ ℕ)
three_steps =
    local_step count (some add_ten)
    ∷ local_step count none
    ∷ local_step count (some add_hundred)
    ∷ []

abbrev pub at_step : ℕ → SagaExecutionState
at_step n = record { currently_executing = pos n; compensating = false; end_state = false }

abbrev pub local_actions : ℕ → SagaActions ℕ
local_actions n = record {
  commands = [];
  end_state = false;
  compensating = false;
  is_local = true;
  updated_saga_data = true;
  updated_state = some (encode_execution_state (at_step n));
  local_exception = none;
}

abbrev succeeded : Message ℕ
succeeded = plain 0 ((reply_outcome, "SUCCESS") ∷ [])

pub one_step_starts : start one_step 3 ≡ (ok (local_actions 0), 4)
unfolding start execute_next_step next_step_to_execute search_steps loop_body execute_step
    create_step_outcome next_state has_action
one_step_starts = refl

one_step_ends :
    handle_reply parse one_step (encode_execution_state (at_step 0)) succeeded 4
    ≡ (ok (make_end_state_saga_actions (at_step 0)), 4)
unfolding handle_reply reply_at reply_to_step invoke_reply_handler get_reply is_successful_reply
    is_success get_required_header get_header get execute_next_step next_step_to_execute
    search_steps loop_body
one_step_ends = simp (decode-encode (at_step 0))

ends_at :
    (make_end_state_saga_actions {P = ℕ} (at_step 0)).updated_state
    ≡ some (encode_execution_state make_end_state)
unfolding make_end_state_saga_actions
ends_at = refl

-- A local step that compensates is asked by running its compensation: an answer that is true runs
-- it once more, one that is false has run it and passes the step over.
three_steps_back : execute_next_step three_steps (start_compensating (at_step 3)) 0 ≡ (
  ok (record (local_actions 0) {
    compensating = true;
    updated_state = some (encode_execution_state (record (at_step 0) { compensating = true }));
  }),
  120,
)
unfolding execute_next_step next_step_to_execute search_steps loop_body execute_step
    create_step_outcome next_state has_compensation start_compensating
three_steps_back = refl

Accepted-bound_example : 1 ≤ length one_step + length one_step + 1
Accepted-bound_example =
    Accepted-bound parse one_step 3 4 (local_actions 0) (at_step 0) one_step_starts refl
      (reply make_end_state succeeded 4 4 _ one_step_ends ends_at none_yet)

start-Executed_example : Executed one_step initial_state 3 4 (local_actions 0)
start-Executed_example = start-Executed one_step 3 4 (local_actions 0) one_step_starts

handle_reply-Answered_example :
    Answered parse one_step (at_step 0) succeeded 4 4 (make_end_state_saga_actions (at_step 0))
handle_reply-Answered_example =
    handle_reply-Answered parse one_step (at_step 0) succeeded 4 4 _ one_step_ends

next_step_to_execute-first_wanted_example :
    next_step_to_execute three_steps (at_step 0)
    ≡ first_wanted false (ahead false (pos 0) three_steps) 0
next_step_to_execute-first_wanted_example =
    next_step_to_execute-first_wanted three_steps (at_step 0)
