-- ===== src/Saga/Builder.antt =====
-- packages/sagas/orchestration/dsl: nest-saga-definition-builder.ts, step-builder.ts,
-- local-step-builder.ts and invoke-participant-step-builder.ts. A builder is a value that holds the
-- steps added so far. The functions of an application are bound to its saga already, and a provider
-- of a command gives it with its destination; `with_destination` is what a builder wraps it in.
pub mod Steps
pub mod Tests
use nest_convoy.Prelude.{
  String, Bool, true, false, Option, none, some, List, [], ◌∷◌, ◌++◌, if◌then◌else◌, ◌==◌, ◌≡◌,
  refl, ap, ◌∙◌,
}
use mathlib.Core.List.{append_assoc, append-nil}
use nest_convoy.Prelude.Dict.{insert, string_key}
use nest_convoy.Prelude.Result.{Result, ok, err}
use nest_convoy.Prelude.Effect.{M}
use nest_convoy.Common.Exceptions.{error}
use nest_convoy.Commands.Command.{Instance, CommandWithDestination}
use nest_convoy.Saga.Step.{
  SagaStep, SagaStepReply, ParticipantInvocation, participant, endpoint, local_step,
  participant_invocation_step,
}

-- What an application's provider of a command may return.
pub data Provided (P : Type 0) : Type 0 where
  addressed : CommandWithDestination P → Provided P
  bare : Instance P → Provided P

abbrev or_declared : Option String → Option String → Option String
or_declared (some d) o = if d == "" then o else some d
or_declared none o = o

abbrev address : {P : Type 0} → Instance P → Option String → Result (CommandWithDestination P)
address command none = err error
address command (some d) =
    if d == ""
    then err error
    else ok (record { channel = d; command = command; resource = none; extra_headers = [] })

-- The body of `withDestination`, with the variable `destination` that its calls share, and the
-- destinations that the classes of an application declare.
unfoldable pub with_destination :
    {P : Type 0}
    → (String → Option String)
    → Provided P
    → M (Option String) (CommandWithDestination P)
with_destination declared (addressed c) destination = (ok c, destination)
with_destination declared (bare command) destination =
    let found = or_declared destination (declared command.constructor_name) in
    (address command found, found)

module _ {D P : Type 0} where
  -- `NestSagaDefinitionBuilder` and its methods.
  unfoldable pub add_step : SagaStep D P → List (SagaStep D P) → List (SagaStep D P)
  add_step step steps = steps ++ (step ∷ [])

module _ (D P : Type 0) where
  pub record LocalStepBuilder : Type 0 where
    pub local_parent : List (SagaStep D P)
    pub handler : M D (Unit {0})
    pub local_compensation : Option (M D Bool)

  pub record InvokeParticipantStepBuilder : Type 0 where
    pub parent : List (SagaStep D P)
    pub action_reply_handlers : List (String × SagaStepReply D P)
    pub compensation_reply_handlers : List (String × SagaStepReply D P)
    pub action : Option (ParticipantInvocation D P)
    pub compensation : Option (ParticipantInvocation D P)

  -- The arguments of `withAction` and `withCompensation`: an endpoint and a command, or a command
  -- that says its destination, and in both cases a predicate that may be missing.
  pub data WithArgs : Type 0 where
    endpoint_args : String → M D (Instance P) → Option (M D Bool) → WithArgs
    provider_args : M D (CommandWithDestination P) → Option (M D Bool) → WithArgs

module _ {D P : Type 0} where
  unfoldable pub invocation_of : WithArgs D P → ParticipantInvocation D P
  invocation_of (endpoint_args channel provide test) = endpoint channel provide test
  invocation_of (provider_args provide test) = participant provide test

  -- `StepBuilder`.
  abbrev pub new_participant_builder : List (SagaStep D P) → InvokeParticipantStepBuilder D P
  new_participant_builder steps = record {
    parent = steps;
    action_reply_handlers = [];
    compensation_reply_handlers = [];
    action = none;
    compensation = none;
  }

  unfoldable pub invoke_local : M D (Unit {0}) → List (SagaStep D P) → LocalStepBuilder D P
  invoke_local handler steps = record {
    local_parent = steps;
    handler = handler;
    local_compensation = none;
  }

  unfoldable pub with_local_compensation : M D Bool → LocalStepBuilder D P → LocalStepBuilder D P
  with_local_compensation compensation b = record b { local_compensation = some compensation }

  unfoldable pub end_local_step : LocalStepBuilder D P → List (SagaStep D P)
  unfolding add_step
  end_local_step b = add_step (local_step b.handler b.local_compensation) b.local_parent

  unfoldable pub with_action :
      WithArgs D P → InvokeParticipantStepBuilder D P → InvokeParticipantStepBuilder D P
  unfolding invocation_of
  with_action args b = record b { action = some (invocation_of args) }

  unfoldable pub with_compensation :
      WithArgs D P → InvokeParticipantStepBuilder D P → InvokeParticipantStepBuilder D P
  unfolding invocation_of
  with_compensation args b = record b { compensation = some (invocation_of args) }

  unfoldable pub invoke_participant :
      WithArgs D P → List (SagaStep D P) → InvokeParticipantStepBuilder D P
  unfolding with_action
  invoke_participant args steps = with_action args (new_participant_builder steps)

  -- `StepBuilder.withCompensation`: a step without an action.
  unfoldable pub compensation_only :
      WithArgs D P → List (SagaStep D P) → InvokeParticipantStepBuilder D P
  unfolding with_compensation
  compensation_only args steps = with_compensation args (new_participant_builder steps)

  -- A reply is one of the compensation from the moment that there is one.
  unfoldable pub on_reply :
      SagaStepReply D P → InvokeParticipantStepBuilder D P → InvokeParticipantStepBuilder D P
  on_reply reply b = elim b.compensation [
    | none ↦ record b { action_reply_handlers = insert reply.type reply b.action_reply_handlers }
    | some c ↦ record b {
      compensation_reply_handlers = insert reply.type reply b.compensation_reply_handlers;
    }
  ]

  -- `step()` and `build()` both add the step.
  unfoldable pub end_participant_step : InvokeParticipantStepBuilder D P → List (SagaStep D P)
  unfolding add_step
  end_participant_step b =
      add_step
        (participant_invocation_step b.action_reply_handlers b.compensation_reply_handlers b.action
          b.compensation)
        b.parent
