-- ===== src/Saga/Step.antt =====
-- packages/sagas/orchestration/dsl: saga-step.ts, local-step.ts, participant-invocation.ts,
-- participant-invocation-step.ts and step-outcome.ts. The handlers of an application change the
-- saga's data `D` in place and may throw, so each is a computation on `D`.
use nest_convoy.Prelude.{
  String, Bool, true, false, Option, none, some, List, [], ◌∷◌, if◌then◌else◌, ◌==◌,
}
use nest_convoy.Prelude.Result.{Result, ok, err}
use nest_convoy.Prelude.Effect.{M, ◌>>=◌, pure, throw}
use nest_convoy.Common.Exceptions.{Exception, error}
use nest_convoy.Messaging.Message.{Message, get_required_header}
use nest_convoy.Commands.Command.{Instance, CommandWithDestination, success, outcome_text}
use nest_convoy.Commands.Headers.{reply_type, reply_outcome}

module _ (D P : Type 0) where
  -- `handler` is given the parsed reply.
  pub record SagaStepReply : Type 0 where
    pub type : String
    pub handler : P → M D (Unit {0})

  -- `ParticipantInvocation`: the builder gives the command with its destination.
  -- `ParticipantEndpointInvocation`: the endpoint has the channel.
  pub data ParticipantInvocation : Type 0 where
    participant : M D (CommandWithDestination P) → Option (M D Bool) → ParticipantInvocation
    endpoint : String → M D (Instance P) → Option (M D Bool) → ParticipantInvocation

  -- The result of a compensation is read as a Boolean where it serves as a test.
  pub data SagaStep : Type 0 where
    local_step : M D (Unit {0}) → Option (M D Bool) → SagaStep
    participant_invocation_step :
        (action_reply_handlers compensation_reply_handlers : List (String × SagaStepReply))
        → (participant_invocation compensation : Option ParticipantInvocation) → SagaStep

pub data StepOutcome (P : Type 0) : Type 0 where
  local_step_outcome : Option Exception → StepOutcome P
  remote_step_outcome : List (CommandWithDestination P) → StepOutcome P

-- `CommandReplyOutcome.SUCCESS === message.getRequiredHeader(REPLY_OUTCOME)`.
unfoldable pub is_success : {P : Type 0} → Message P → Result Bool
is_success m = elim (get_required_header reply_outcome m) [
  | ok outcome ↦ ok (outcome_text success == outcome)
  | err e ↦ err e
]

module _ {D P : Type 0} where
  abbrev is_invocable : ParticipantInvocation D P → Option (M D Bool)
  is_invocable (participant build test) = test
  is_invocable (endpoint channel provide test) = test

  unfoldable pub create_command_to_send : ParticipantInvocation D P → M D (CommandWithDestination P)
  create_command_to_send (participant build test) = build
  create_command_to_send (endpoint channel provide test) = do
    command ← provide
    pure (record { channel = channel; command = command; resource = none; extra_headers = [] })

  -- `typeof isInvocable === 'function' ? isInvocable(data) : !!invocation`.
  abbrev invocable : Option (ParticipantInvocation D P) → M D Bool
  invocable none = pure false
  invocable (some i) = elim (is_invocable i) [ none ↦ pure true | some test ↦ test ]

  unfoldable pub has_action : SagaStep D P → M D Bool
  has_action (local_step handler compensation) = pure true
  has_action (participant_invocation_step on_reply on_compensated action compensation) =
      invocable action

  -- A local step asks its compensation itself: the call runs it.
  unfoldable pub has_compensation : SagaStep D P → M D Bool
  has_compensation (local_step handler none) = pure false
  has_compensation (local_step handler (some compensation)) = compensation
  has_compensation (participant_invocation_step on_reply on_compensated action compensation) =
      invocable compensation

  unfoldable pub lookup_reply :
      String → List (String × SagaStepReply D P) → Option (SagaStepReply D P)
  lookup_reply k [] = none
  lookup_reply k ((j, r) ∷ rs) = if j == k then some r else lookup_reply k rs

  unfoldable pub get_reply : SagaStep D P → Message P → Bool → Result (Option (SagaStepReply D P))
  get_reply (local_step handler compensation) m compensating = ok none
  get_reply (participant_invocation_step on_reply on_compensated action compensation) m
        compensating =
      elim (get_required_header reply_type m) [
        | ok type ↦ ok (lookup_reply type (if compensating then on_compensated else on_reply))
        | err e ↦ err e
      ]

  abbrev invocation :
      Bool
      → Option (ParticipantInvocation D P)
      → Option (ParticipantInvocation D P)
      → Option (ParticipantInvocation D P)
  invocation compensating action compensation = if compensating then compensation else action

  unfoldable pub is_successful_reply : SagaStep D P → Bool → Message P → Result Bool
  unfolding is_success
  is_successful_reply (local_step handler compensation) compensating m = is_success m
  is_successful_reply (participant_invocation_step on_reply on_compensated action compensation)
        compensating m =
      elim (invocation compensating action compensation) [ none ↦ ok false | some i ↦ is_success m ]

  -- `try`: the outcome has the exception that the handler threw.
  abbrev attempt : {A : Type 0} → M D A → M D (StepOutcome P)
  attempt m d = elim (m d).0 [
    | ok a ↦ (ok (local_step_outcome none), (m d).1)
    | err e ↦ (ok (local_step_outcome (some e)), (m d).1)
  ]

  unfoldable pub create_step_outcome : SagaStep D P → Bool → M D (StepOutcome P)
  unfolding create_command_to_send
  create_step_outcome (local_step handler none) true = pure (local_step_outcome none)
  create_step_outcome (local_step handler (some compensation)) true = attempt compensation
  create_step_outcome (local_step handler compensation) false = attempt handler
  create_step_outcome (participant_invocation_step on_reply on_compensated action compensation)
        compensating =
      elim (invocation compensating action compensation) [
        | none ↦ throw error
        | some i ↦ do command ← create_command_to_send i; pure (remote_step_outcome (command ∷ []))
      ]
