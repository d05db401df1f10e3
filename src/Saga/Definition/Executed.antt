-- ===== src/Saga/Definition/Executed.antt =====
-- Which step of packages/sagas/orchestration/dsl/nest-saga-definition.ts runs for a new saga and for
-- a reply, and what its actions are.
use nest_convoy.Prelude.{
  Option, ◌+◌, ◌≡◌, refl, sym, ap, ◌∙◌, String, Bool, true, false, none, some, List, if◌then◌else◌,
  Bool-cases, Option-cases, inl, inr, ◌⊎◌,
}
use nest_convoy.Prelude.Result.{Result, ok}
use nest_convoy.Prelude.Effect.{throw, lift, >>=-eq-ok, pure-eq-ok, state-eq}
use nest_convoy.Common.Exceptions.{runtime, unsupported_operation}
use nest_convoy.Messaging.Message.{Message}
use nest_convoy.Saga.State.{SagaExecutionState, initial_state, start_compensating, next_state}
use nest_convoy.Saga.State.Json.{encode_execution_state}
use nest_convoy.Saga.Actions.{
  SagaActions, builder, with_updated_state, with_updated_saga_data, with_is_end_state,
  with_is_compensating,
}
use nest_convoy.Saga.Step.{
  SagaStep, SagaStepReply, StepOutcome, get_reply, is_successful_reply, create_step_outcome,
}
use nest_convoy.Saga.Definition.{
  StepToExecute, visit, step_size, at, next_step_to_execute, make_end_state_saga_actions,
  execute_step, execute_next_step, start, invoke_reply_handler, reply_to_step, handle_reply,
}
use nest_convoy.Saga.Definition.Search.{first_wanted, ahead, next_step_to_execute-first_wanted}
use nest_convoy.Saga.Definition.Progress.{move, next_step-at}
use nest_convoy.Saga.Definition.Replies.{handle_reply-step, handle_reply_no_step}

-- The actions of a step that gave `outcome`, between the state before and the one that is saved.
abbrev pub step_actions :
    {P : Type 0} → SagaExecutionState → SagaExecutionState → StepOutcome P → SagaActions P
step_actions s s' outcome = with_is_compensating s.compensating (
    with_is_end_state false (
      with_updated_state (encode_execution_state s')
        (with_updated_saga_data (visit outcome builder))))

module _ {D P : Type 0} where
  -- The search in the list of the steps ahead, from the data `d`.
  abbrev pub Finds : List (SagaStep D P) → SagaExecutionState → D → StepToExecute D P → D → Type 0
  Finds steps s d t d' =
      first_wanted s.compensating (ahead s.compensating s.currently_executing steps) 0 d
      ≡ (ok t, d')

  -- Which step runs from the state `s` and the data `d`, and what comes of it. Where no step ahead
  -- wants to run, the saga ends. Otherwise the first one that wants to has run, in the direction of
  -- `s`; the saved state names that step, and the actions are those of its outcome.
  pub data Executed (steps : List (SagaStep D P)) (s : SagaExecutionState) (d d' : D)
      (a : SagaActions P) : Type 0 where
    ended :
        (t : StepToExecute D P)
        → Finds steps s d t d'
        → t.step ≡ none
        → a ≡ make_end_state_saga_actions s
        → Executed steps s d d' a
    ran :
        (t : StepToExecute D P) (d₁ : D) (step : SagaStep D P) (s' : SagaExecutionState)
        (outcome : StepOutcome P)
        → Finds steps s d t d₁
        → t.step ≡ some step
        → at steps s'.currently_executing ≡ some step
        → s'.currently_executing ≡ move s.compensating s.currently_executing (1 + t.skipped)
        → s'.compensating ≡ s.compensating
        → s'.end_state ≡ false
        → create_step_outcome step s.compensating d₁ ≡ (ok outcome, d')
        → a ≡ step_actions s s' outcome
        → Executed steps s d d' a

  step_size-found :
      (t : StepToExecute D P) (step : SagaStep D P)
      → t.step ≡ some step
      → step_size t ≡ 1 + t.skipped
  step_size-found t step e = rw e refl

  execute_step-Executed :
      (steps : List (SagaStep D P)) (s : SagaExecutionState) (d d₁ d' : D) (t : StepToExecute D P)
      (step : SagaStep D P) (a : SagaActions P)
      → Finds steps s d t d₁
      → t.step ≡ some step
      → at steps (move s.compensating s.currently_executing (step_size t)) ≡ some step
      → t.compensating ≡ s.compensating
      → execute_step step (step_size t) t.compensating s d₁ ≡ (ok a, d')
      → Executed steps s d d' a
  unfolding execute_step next_state
  execute_step-Executed steps s d d₁ d' t step a found e here same h =
      let (outcome, d₂, made, rest) = >>=-eq-ok (create_step_outcome step t.compensating) _ d₁ h in
      let last : d₂ ≡ d' = state-eq _ (ok a) d' rest in
      ran t d₁ step (next_state s (step_size t)) outcome found e here
        (ap (move s.compensating s.currently_executing) (step_size-found t step e)) refl refl
        (ap (λ b. create_step_outcome step b d₁) (sym same)
          ∙ made
          ∙ ap (λ (x : D). (ok outcome, x)) last)
        (sym (pure-eq-ok _ d₂ rest))

  execute_next_step-Executed :
      (steps : List (SagaStep D P)) (s : SagaExecutionState) (d d' : D) (a : SagaActions P)
      → execute_next_step steps s d ≡ (ok a, d')
      → Executed steps s d d' a
  unfolding execute_next_step
  execute_next_step-Executed steps s d d' a h =
      let (t, d₁, searched, rest) = >>=-eq-ok (next_step_to_execute steps s) _ d h in
      let found : Finds steps s d t d₁ =
        rw (next_step_to_execute-first_wanted steps s) at searched in
      elim (Option-cases t.step) [
        | inl nothing ↦
            let last : d₁ ≡ d' = state-eq _ (ok a) d' (rw nothing at rest) in
            ended t (found ∙ ap (λ (x : D). (ok t, x)) last) nothing
              (sym (pure-eq-ok _ d₁ (rw nothing at rest)))
        | inr (step, e) ↦
            let located = next_step-at steps s d d₁ t step searched e in
            execute_step-Executed steps s d d₁ d' t step a found e located.1.0 located.0
              (rw e at rest)
      ]

  -- Where the start of a saga returns, the first step that wants to run has run forward, the saved
  -- state names that step and the actions are those of its outcome; the saga is at its end only if
  -- no step wants to run.
  pub start-Executed :
      (steps : List (SagaStep D P)) (d d' : D) (a : SagaActions P)
      → start steps d ≡ (ok a, d')
      → Executed steps initial_state d d' a
  unfolding start
  start-Executed steps d d' a h = execute_next_step-Executed steps initial_state d d' a h

module _ {D P : Type 0} (plain_to_class : String → P → Result P) where
  -- What an accepted reply does: its handler has run, and then a step of the direction that the
  -- reply's outcome gives.
  abbrev pub Answered :
      List (SagaStep D P) → SagaExecutionState → Message P → D → D → SagaActions P → Type 0
  Answered steps s m d d' a =
      (step : SagaStep D P) × (reply : Option (SagaStepReply D P)) × (d₁ : D) × (at steps
          s.currently_executing
        ≡ some step)
      × (get_reply step m s.compensating ≡ ok reply)
      × (invoke_reply_handler plain_to_class m reply d ≡ (ok tt, d₁))
      × (((is_successful_reply step s.compensating m ≡ ok true) × Executed steps s d₁ d' a)
          ⊎ ((is_successful_reply step s.compensating m ≡ ok false)
              × (s.compensating ≡ false)
              × Executed steps (start_compensating s) d₁ d' a))

  reply_to_step-Answered :
      (steps : List (SagaStep D P)) (s : SagaExecutionState) (step : SagaStep D P) (m : Message P)
      (d d' : D) (a : SagaActions P)
      → at steps s.currently_executing ≡ some step
      → reply_to_step plain_to_class steps s step m d ≡ (ok a, d')
      → Answered steps s m d d' a
  unfolding reply_to_step start_compensating
  reply_to_step-Answered steps s step m d d' a e h =
      let (reply, d₁, chosen, h₁) = >>=-eq-ok (lift (get_reply step m s.compensating)) _ d h in
      let (_, d₂, ran_handler, h₂) =
        >>=-eq-ok (invoke_reply_handler plain_to_class m reply) _ d₁ h₁ in
      let (b, d₃, read, h₃) =
        >>=-eq-ok (lift (is_successful_reply step s.compensating m)) _ d₂ h₂ in
      let kept : d₁ ≡ d = sym (ap (λ (p : Result (Option (SagaStepReply D P)) × D). p.1) chosen) in
      let same : d₃ ≡ d₂ = sym (ap (λ (p : Result Bool × D). p.1) read) in
      (
        step,
        reply,
        d₂,
        e,
        ap (λ (p : Result (Option (SagaStepReply D P)) × D). p.0) chosen,
        ap (invoke_reply_handler plain_to_class m reply) (sym kept) ∙ ran_handler,
        decide b d₂ (ap (λ (p : Result Bool × D). p.0) read) (rw same at h₃),
      )
    where
      decide :
          (b : Bool) (d₃ : D)
          → is_successful_reply step s.compensating m ≡ ok b
          → (if b
                then execute_next_step steps s
                else if s.compensating
                then throw unsupported_operation
                else execute_next_step steps (start_compensating s))
              d₃
            ≡ (ok a, d')
          → ((is_successful_reply step s.compensating m ≡ ok true) × Executed steps s d₃ d' a)
            ⊎ ((is_successful_reply step s.compensating m ≡ ok false)
                × (s.compensating ≡ false)
                × Executed steps (start_compensating s) d₃ d' a)
      decide true d₃ read h₃ = inl (read, execute_next_step-Executed steps s d₃ d' a h₃)
      decide false d₃ read h₃ = elim (Bool-cases s.compensating) [
        | inl back ↦ absurd (no_value (rw back at h₃))
        | inr on ↦ inr (
          read,
          on,
          execute_next_step-Executed steps (start_compensating s) d₃ d' a (rw on at h₃),
        )
      ]
        where
          no_value : throw unsupported_operation d₃ ≡ (ok a, d') → ⊥
          no_value q = cc

  -- A reply that is accepted finds the step that the saga waits for, and its handler runs. After a
  -- success the first step ahead that wants to run has run; a failure turns a saga that goes
  -- forward round, and the first step behind that wants to be compensated has run. The saved state
  -- names the step that ran, and the saga is at its end only if no such step wants to run. A
  -- failure is never accepted from a saga that compensates.
  pub handle_reply-Answered :
      (steps : List (SagaStep D P)) (s : SagaExecutionState) (m : Message P) (d d' : D)
      (a : SagaActions P)
      → handle_reply plain_to_class steps (encode_execution_state s) m d ≡ (ok a, d')
      → Answered steps s m d d' a
  handle_reply-Answered steps s m d d' a h = elim (Option-cases (at steps s.currently_executing)) [
    | inl nothing ↦
        absurd (no_value (sym (handle_reply_no_step plain_to_class steps s m d nothing) ∙ h))
    | inr (step, e) ↦
        reply_to_step-Answered steps s step m d d' a e
          (rw (handle_reply-step plain_to_class steps s step m d e) at h)
  ]
    where
      no_value : throw runtime d ≡ (ok a, d') → ⊥
      no_value q = cc
