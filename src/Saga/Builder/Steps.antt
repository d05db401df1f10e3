-- ===== src/Saga/Builder/Steps.antt =====
-- packages/sagas/orchestration/dsl: the steps that a chain of builder calls gives.
use nest_convoy.Prelude.{
  String, Bool, Option, none, some, List, [], ◌∷◌, ◌++◌, ◌≡◌, refl, ap, ◌∙◌, map,
}
use mathlib.Core.List.{append_assoc, append-nil}
use nest_convoy.Prelude.Dict.{insert, string_key}
use nest_convoy.Prelude.Effect.{M}
use nest_convoy.Saga.Step.{
  SagaStep, SagaStepReply, ParticipantInvocation, local_step, participant_invocation_step,
}
use nest_convoy.Saga.Builder.{
  WithArgs, LocalStepBuilder, InvokeParticipantStepBuilder, add_step, invocation_of, invoke_local,
  with_local_compensation, end_local_step, with_compensation, invoke_participant, on_reply,
  end_participant_step,
}

-- A step as its builder calls describe it: the action and its replies, then the compensation, if
-- there is one, and the replies of that.
pub data Description (D P : Type 0) : Type 0 where
  local : M D (Unit {0}) → Option (M D Bool) → Description D P
  remote :
      WithArgs D P
      → List (SagaStepReply D P)
      → Option (WithArgs D P)
      → List (SagaStepReply D P)
      → Description D P

module _ {D P : Type 0} where
  -- The map of the replies: of one type the last.
  abbrev pub replies_of :
      List (SagaStepReply D P)
      → List (String × SagaStepReply D P)
      → List (String × SagaStepReply D P)
  replies_of [] handlers = handlers
  replies_of (r ∷ rs) handlers = replies_of rs (insert r.type r handlers)

  -- Without a compensation all replies are those of the action.
  abbrev pub step_of : Description D P → SagaStep D P
  step_of (local handler compensation) = local_step handler compensation
  step_of (remote action replies none more) =
      participant_invocation_step (replies_of more (replies_of replies [])) []
        (some (invocation_of action)) none
  step_of (remote action replies (some compensation) more) =
      participant_invocation_step (replies_of replies []) (replies_of more [])
        (some (invocation_of action)) (some (invocation_of compensation))

  abbrev on_replies :
      List (SagaStepReply D P) → InvokeParticipantStepBuilder D P → InvokeParticipantStepBuilder D P
  on_replies [] b = b
  on_replies (r ∷ rs) b = on_replies rs (on_reply r b)

  abbrev compensate_local : Option (M D Bool) → LocalStepBuilder D P → LocalStepBuilder D P
  compensate_local none b = b
  compensate_local (some c) b = with_local_compensation c b

  abbrev compensate :
      Option (WithArgs D P) → InvokeParticipantStepBuilder D P → InvokeParticipantStepBuilder D P
  compensate none b = b
  compensate (some args) b = with_compensation args b

  -- The calls for a step, behind the steps added before, and for a list of steps.
  abbrev pub call_step : Description D P → List (SagaStep D P) → List (SagaStep D P)
  call_step (local handler compensation) steps =
      end_local_step (compensate_local compensation (invoke_local handler steps))
  call_step (remote action replies compensation more) steps = end_participant_step (
      on_replies more
        (compensate compensation (on_replies replies (invoke_participant action steps))))

  abbrev pub call_steps : List (Description D P) → List (SagaStep D P) → List (SagaStep D P)
  call_steps [] steps = steps
  call_steps (d ∷ ds) steps = call_steps ds (call_step d steps)

  abbrev builder :
      List (SagaStep D P)
      → List (String × SagaStepReply D P)
      → List (String × SagaStepReply D P)
      → Option (ParticipantInvocation D P)
      → Option (ParticipantInvocation D P)
      → InvokeParticipantStepBuilder D P
  builder steps on_action on_compensated action compensation = record {
    parent = steps;
    action_reply_handlers = on_action;
    compensation_reply_handlers = on_compensated;
    action = action;
    compensation = compensation;
  }

  on_replies-action :
      (rs : List (SagaStepReply D P)) (steps : List (SagaStep D P))
      (h k : List (String × SagaStepReply D P)) (a : Option (ParticipantInvocation D P))
      → on_replies rs (builder steps h k a none) ≡ builder steps (replies_of rs h) k a none
  unfolding on_reply
  on_replies-action [] steps h k a = refl
  on_replies-action (r ∷ rs) steps h k a = on_replies-action rs steps (insert r.type r h) k a

  on_replies-compensation :
      (rs : List (SagaStepReply D P)) (steps : List (SagaStep D P))
      (h k : List (String × SagaStepReply D P)) (a : Option (ParticipantInvocation D P))
      (c : ParticipantInvocation D P)
      → on_replies rs (builder steps h k a (some c)) ≡ builder steps h (replies_of rs k) a (some c)
  unfolding on_reply
  on_replies-compensation [] steps h k a c = refl
  on_replies-compensation (r ∷ rs) steps h k a c =
      on_replies-compensation rs steps h (insert r.type r k) a c

  call_step_lem :
      (d : Description D P) (steps : List (SagaStep D P))
      → call_step d steps ≡ steps ++ (step_of d ∷ [])
  unfolding end_local_step end_participant_step invoke_local with_local_compensation
      invoke_participant with_compensation add_step
  call_step_lem (local handler none) steps = refl
  call_step_lem (local handler (some c)) steps = refl
  call_step_lem (remote action replies none more) steps =
      let a = some (invocation_of action) in
      ap (λ b. end_participant_step b)
        (ap (λ b. on_replies more b) (on_replies-action replies steps [] [] a)
          ∙ on_replies-action more steps (replies_of replies []) [] a)
  call_step_lem (remote action replies (some c) more) steps =
      let a = some (invocation_of action) in
      ap (λ b. end_participant_step b)
        (ap (λ b. on_replies more (with_compensation c b)) (on_replies-action replies steps [] [] a)
          ∙ on_replies-compensation more steps (replies_of replies []) [] a (invocation_of c))

  -- The definition that is built has the steps in the order of the calls: each with its action, and
  -- with the replies that were given before its compensation as those of the action and the replies
  -- behind it as those of the compensation.
  pub call_steps-step_of :
      (ds : List (Description D P)) (steps : List (SagaStep D P))
      → call_steps ds steps ≡ steps ++ map step_of ds
  call_steps-step_of [] steps = rw (append-nil steps) refl
  call_steps-step_of (d ∷ ds) steps =
      call_steps-step_of ds (call_step d steps)
      ∙ ap (λ l. l ++ map step_of ds) (call_step_lem d steps)
      ∙ rw (append_assoc steps) refl
