-- ===== src/Saga/Definition.antt =====
-- packages/sagas/orchestration/dsl: nest-saga-definition.ts and step-to-execute.ts. A definition is
-- its list of steps; its methods are computations on the saga's data.
pub mod Search
pub mod Progress
pub mod Replies
pub mod Executed
pub mod Termination
pub mod Local
pub mod Tests
use nest_convoy.Prelude.{
  Text, ℕ, zero, suc, ◌+◌, String, Bool, true, false, Option, none, some, List, [], ◌∷◌,
  if◌then◌else◌, ◌&&◌, length, get_elem?,
}
use nest_convoy.Prelude.Int.{ℤ, pos, negsuc, ◌+ℤ◌, ◌-ℤ◌, ltb_ℤ, leb_ℤ}
use nest_convoy.Prelude.Result.{Result, ok, err}
use nest_convoy.Prelude.Effect.{M, ◌>>=◌, ◌>>◌, pure, throw, lift}
use nest_convoy.Common.Exceptions.{Exception, runtime, unsupported_operation}
use nest_convoy.Messaging.Message.{Message}
use nest_convoy.Saga.State.{
  SagaExecutionState, initial_state, make_end_state, start_compensating, next_state,
}
use nest_convoy.Saga.State.Json.{encode_execution_state, decode_execution_state}
use nest_convoy.Saga.Actions.{
  SagaActions, builder, with_commands, with_updated_state, with_updated_saga_data,
  with_is_end_state, with_is_compensating, with_is_local,
}
use nest_convoy.Saga.Step.{
  SagaStep, SagaStepReply, StepOutcome, local_step_outcome, remote_step_outcome, has_action,
  has_compensation, get_reply, is_successful_reply, create_step_outcome,
}

pub record StepToExecute (D P : Type 0) : Type 0 where
  pub skipped : ℕ
  pub compensating : Bool
  pub step : Option (SagaStep D P)

abbrev pub advance : Bool → ℤ → ℤ
advance compensating i = if compensating then i -ℤ pos 1 else i +ℤ pos 1

unfoldable pub make_end_state_saga_actions : {P : Type 0} → SagaExecutionState → SagaActions P
make_end_state_saga_actions s =
    with_is_compensating s.compensating
      (with_is_end_state true (with_updated_state (encode_execution_state make_end_state) builder))

abbrev pub visit : {P : Type 0} → StepOutcome P → SagaActions P → SagaActions P
visit (local_step_outcome exception) a = with_is_local exception a
visit (remote_step_outcome commands) a = with_commands commands a

module _ {D P : Type 0} where
  abbrev found : Option (SagaStep D P) → ℕ
  found none = 0
  found (some s) = 1

  -- The private `size()` of a step to execute.
  abbrev pub step_size : StepToExecute D P → ℕ
  step_size t = found t.step + t.skipped

  -- An index of an array: `undefined` outside it.
  abbrev pub at : List (SagaStep D P) → ℤ → Option (SagaStep D P)
  at steps (pos i) = get_elem? steps i
  at steps (negsuc i) = none

  abbrev pub wanted : Bool → SagaStep D P → M D Bool
  wanted compensating step = if compensating then has_compensation step else has_action step

  abbrev in_range : ℤ → List (SagaStep D P) → Bool
  in_range i steps = leb_ℤ (pos 0) i && ltb_ℤ i (pos (length steps))

  abbrev to_execute : ℕ → Bool → Option (SagaStep D P) → StepToExecute D P
  to_execute skipped compensating step = record {
    skipped = skipped;
    compensating = compensating;
    step = step;
  }

  -- The `for` loop, with fuel. `next` is the rest of the loop.
  loop_body :
      List (SagaStep D P)
      → Bool
      → ℤ
      → ℕ
      → (ℤ → ℕ → M D (StepToExecute D P))
      → M D (StepToExecute D P)
  loop_body steps compensating i skipped next = elim (at steps i) [
    | none ↦ pure (to_execute skipped compensating none)
    | some step ↦ wanted compensating step >>= λ b.
        if b
        then pure (to_execute skipped compensating (some step))
        else next (advance compensating i) (suc skipped)
  ]

  search_steps : ℕ → List (SagaStep D P) → Bool → ℤ → ℕ → M D (StepToExecute D P)
  search_steps zero steps compensating i skipped = pure (to_execute skipped compensating none)
  search_steps (suc fuel) steps compensating i skipped =
      if in_range i steps
      then loop_body steps compensating i skipped (search_steps fuel steps compensating)
      else pure (to_execute skipped compensating none)

  -- A round for each step, and one to see the end.
  pub next_step_to_execute : List (SagaStep D P) → SagaExecutionState → M D (StepToExecute D P)
  unfolding search_steps loop_body
  next_step_to_execute steps s =
      search_steps (suc (length steps)) steps s.compensating
        (advance s.compensating s.currently_executing) 0

  -- `executeStep` of a step that is there.
  pub execute_step : SagaStep D P → ℕ → Bool → SagaExecutionState → M D (SagaActions P)
  execute_step step size compensating current = do
    outcome ← create_step_outcome step compensating
    let new_state = next_state current size
    pure (
        with_is_compensating current.compensating (
          with_is_end_state new_state.end_state (
            with_updated_state (encode_execution_state new_state)
              (with_updated_saga_data (visit outcome builder)))))

  pub execute_next_step : List (SagaStep D P) → SagaExecutionState → M D (SagaActions P)
  execute_next_step steps s = do
    t ← next_step_to_execute steps s
    elim t.step [
      | none ↦ pure (make_end_state_saga_actions s)
      | some step ↦ execute_step step (step_size t) t.compensating s
    ]

  pub start : List (SagaStep D P) → M D (SagaActions P)
  start steps = execute_next_step steps initial_state

module _ {D P : Type 0} (plain_to_class : String → P → Result P) where
  -- `message.parsePayload(replyType)`, then the handler.
  pub invoke_reply_handler : Message P → Option (SagaStepReply D P) → M D (Unit {0})
  invoke_reply_handler m none = pure tt
  invoke_reply_handler m (some r) = lift (plain_to_class r.type m.payload) >>= r.handler

  pub reply_to_step :
      List (SagaStep D P) → SagaExecutionState → SagaStep D P → Message P → M D (SagaActions P)
  reply_to_step steps s step m = do
    reply ← lift (get_reply step m s.compensating)
    invoke_reply_handler m reply
    successful ← lift (is_successful_reply step s.compensating m)
    if successful
        then execute_next_step steps s
        else if s.compensating
        then throw unsupported_operation
        else execute_next_step steps (start_compensating s)

  -- The step that the reply is for, if it is there.
  reply_at :
      List (SagaStep D P)
      → SagaExecutionState
      → Message P
      → Option (SagaStep D P)
      → M D (SagaActions P)
  reply_at steps s m none = throw runtime
  reply_at steps s m (some step) = reply_to_step steps s step m

  pub handle_reply : List (SagaStep D P) → Text → Message P → M D (SagaActions P)
  handle_reply steps current_state m = do
    s ← lift (decode_execution_state current_state)
    reply_at steps s m (at steps s.currently_executing)
