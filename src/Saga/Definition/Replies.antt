-- ===== src/Saga/Definition/Replies.antt =====
-- What a definition returns for a new saga and for a reply, on every branch.
use nest_convoy.Prelude.{
  ℕ, ◌<◌, ◌≡◌, refl, sym, ap, subst, ◌∙◌, String, Bool, true, false, none, some, List,
  if◌then◌else◌, length, Bool-cases, Option-cases, inl, inr, ◌⊎◌,
}
use nest_convoy.Prelude.Result.{Result, ok, err}
use nest_convoy.Prelude.Effect.{throw, lift, >>=-eq-ok, pure-eq-ok}
use nest_convoy.Common.Exceptions.{runtime, unsupported_operation}
use nest_convoy.Messaging.Message.{Message}
use nest_convoy.Saga.State.{SagaExecutionState, initial_state, start_compensating, next_state}
use nest_convoy.Saga.State.Json.{encode_execution_state}
use nest_convoy.Saga.State.Json.RoundTrip.{decode-encode}
use nest_convoy.Saga.Actions.{SagaActions}
use nest_convoy.Saga.Step.{SagaStep, get_reply, is_successful_reply, create_step_outcome}
use nest_convoy.Saga.Definition.{
  reply_at, step_size, at, next_step_to_execute, make_end_state_saga_actions, execute_step,
  execute_next_step, start, invoke_reply_handler, reply_to_step, handle_reply,
}
use nest_convoy.Saga.Definition.Progress.{rank, Located, next_step-at}

module _ {D P : Type 0} where
  -- What the counting of replies and of rounds needs of the actions of a definition: the saga is at
  -- its end, or the saved state names a step that lies ahead. `Executed` says which one it is.
  pub data Next (steps : List (SagaStep D P)) (s : SagaExecutionState) (a : SagaActions P)
      : Type 0 where
    ended : a ≡ make_end_state_saga_actions s → Next steps s a
    moved :
        (s' : SagaExecutionState) (step : SagaStep D P)
        → at steps s'.currently_executing ≡ some step
        → rank (length steps) s'.compensating s'.currently_executing
          < rank (length steps) s.compensating s.currently_executing
        → s'.compensating ≡ s.compensating
        → a.updated_state ≡ some (encode_execution_state s')
        → a.end_state ≡ false
        → a.compensating ≡ s.compensating
        → a.updated_saga_data ≡ true
        → Next steps s a

  execute_step-moved :
      (steps : List (SagaStep D P)) (s : SagaExecutionState) (d d' : D) (step : SagaStep D P)
      (size : ℕ) (c : Bool) (a : SagaActions P)
      → Located steps s step size
      → execute_step step size c s d ≡ (ok a, d')
      → Next steps s a
  unfolding execute_step next_state
  execute_step-moved steps s d d' step size c a (here, less) h =
      let (outcome, d₁, made, rest) = >>=-eq-ok (create_step_outcome step c) _ d h in
      subst (Next steps s) (pure-eq-ok _ d₁ rest)
        (moved (next_state s size) step here less refl refl refl refl refl)

  execute_next_step-Next :
      (steps : List (SagaStep D P)) (s : SagaExecutionState) (d d' : D) (a : SagaActions P)
      → execute_next_step steps s d ≡ (ok a, d')
      → Next steps s a
  unfolding execute_next_step
  execute_next_step-Next steps s d d' a h =
      let (t, d₁, found, rest) = >>=-eq-ok (next_step_to_execute steps s) _ d h in
      elim (Option-cases t.step) [
        | inl nothing ↦ ended (sym (pure-eq-ok _ d₁ (rw nothing at rest)))
        | inr (step, e) ↦
            execute_step-moved steps s d₁ d' step (step_size t) t.compensating a
              (next_step-at steps s d d₁ t step found e).1 (rw e at rest)
      ]

  -- Where the start of a saga returns, its actions say that the saga is at its end, or that a step
  -- which the saved state names runs forward.
  pub start-Next :
      (steps : List (SagaStep D P)) (d d' : D) (a : SagaActions P)
      → start steps d ≡ (ok a, d')
      → Next steps initial_state a
  unfolding start
  start-Next steps d d' a h = execute_next_step-Next steps initial_state d d' a h

module _ {D P : Type 0} (plain_to_class : String → P → Result P) where
  -- A reply that is accepted moves the saga on in its direction if it reports a success, and turns
  -- it round if it reports a failure.
  abbrev pub Turn : List (SagaStep D P) → SagaExecutionState → Message P → SagaActions P → Type 0
  Turn steps s m a =
      (step : SagaStep D P) × (at steps s.currently_executing ≡ some step)
      × (((is_successful_reply step s.compensating m ≡ ok true) × Next steps s a)
          ⊎ ((is_successful_reply step s.compensating m ≡ ok false)
              × (s.compensating ≡ false)
              × Next steps (start_compensating s) a))

  reply_to_step-Turn :
      (steps : List (SagaStep D P)) (s : SagaExecutionState) (step : SagaStep D P) (m : Message P)
      (d d' : D) (a : SagaActions P)
      → at steps s.currently_executing ≡ some step
      → reply_to_step plain_to_class steps s step m d ≡ (ok a, d')
      → Turn steps s m a
  unfolding reply_to_step start_compensating
  reply_to_step-Turn steps s step m d d' a e h =
      let (reply, d₁, _, h₁) = >>=-eq-ok (lift (get_reply step m s.compensating)) _ d h in
      let (_, d₂, _, h₂) = >>=-eq-ok (invoke_reply_handler plain_to_class m reply) _ d₁ h₁ in
      let (b, d₃, read, h₃) =
        >>=-eq-ok (lift (is_successful_reply step s.compensating m)) _ d₂ h₂ in
      (step, e, decide b d₃ (ap (λ (p : Result Bool × D). p.0) read) h₃)
    where
      decide :
          (b : Bool) (d₃ : D)
          → is_successful_reply step s.compensating m ≡ ok b
          → (if b
                then execute_next_step steps s
                else if s.compensating
                then throw unsupported_operation
                else execute_next_step steps (start_compensating s))
              d₃
            ≡ (ok a, d')
          → ((is_successful_reply step s.compensating m ≡ ok true) × Next steps s a)
            ⊎ ((is_successful_reply step s.compensating m ≡ ok false)
                × (s.compensating ≡ false)
                × Next steps (start_compensating s) a)
      decide true d₃ read h₃ = inl (read, execute_next_step-Next steps s d₃ d' a h₃)
      decide false d₃ read h₃ = elim (Bool-cases s.compensating) [
        | inl back ↦ absurd (no_value (rw back at h₃))
        | inr on ↦
            inr
              (read, on, execute_next_step-Next steps (start_compensating s) d₃ d' a (rw on at h₃))
      ]
        where
          no_value : throw unsupported_operation d₃ ≡ (ok a, d') → ⊥
          no_value q = cc

  pub handle_reply-step :
      (steps : List (SagaStep D P)) (s : SagaExecutionState) (step : SagaStep D P) (m : Message P)
      (d : D)
      → at steps s.currently_executing ≡ some step
      → handle_reply plain_to_class steps (encode_execution_state s) m d
        ≡ reply_to_step plain_to_class steps s step m d
  unfolding handle_reply
  handle_reply-step steps s step m d e = rw (decode-encode s, e) (unfold reply_at in refl)

  -- Where no step waits, as after the end of the saga, a reply is refused and changes no data.
  pub handle_reply_no_step :
      (steps : List (SagaStep D P)) (s : SagaExecutionState) (m : Message P) (d : D)
      → at steps s.currently_executing ≡ none
      → handle_reply plain_to_class steps (encode_execution_state s) m d ≡ (err runtime, d)
  unfolding handle_reply
  handle_reply_no_step steps s m d e = rw (decode-encode s, e) (unfold reply_at in refl)

  -- A reply that is accepted finds the step that the saga waits for. A success leaves the direction,
  -- and a failure turns a saga that goes forward round.
  pub handle_reply-Turn :
      (steps : List (SagaStep D P)) (s : SagaExecutionState) (m : Message P) (d d' : D)
      (a : SagaActions P)
      → handle_reply plain_to_class steps (encode_execution_state s) m d ≡ (ok a, d')
      → Turn steps s m a
  handle_reply-Turn steps s m d d' a h = elim (Option-cases (at steps s.currently_executing)) [
    | inl nothing ↦ absurd (no_value (sym (handle_reply_no_step steps s m d nothing) ∙ h))
    | inr (step, e) ↦
        reply_to_step-Turn steps s step m d d' a e (rw (handle_reply-step steps s step m d e) at h)
  ]
    where
      no_value : throw runtime d ≡ (ok a, d') → ⊥
      no_value q = cc
