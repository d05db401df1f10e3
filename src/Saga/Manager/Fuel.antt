-- ===== src/Saga/Manager/Fuel.antt =====
-- The rounds of the loop of `processActions` in packages/sagas/orchestration/saga-manager.ts.
use nest_convoy.Prelude.{
  Text, ℕ, zero, suc, ◌≤◌, ◌<◌, ◌≡◌, refl, sym, ap, ◌∙◌, none, some, List, if◌then◌else◌, length,
  arith, Bool-cases, Option-cases, inl, inr,
}
use nest_convoy.Prelude.Result.{Result, ok, err}
use nest_convoy.Prelude.Effect.{throw, M, ◌>>=◌, pure, >>=-cong, pure-eq-ok}
use nest_convoy.Common.Exceptions.{error}
use nest_convoy.Messaging.Message.{Message}
use nest_convoy.Saga.State.{SagaExecutionState, start_compensating}
use nest_convoy.Saga.State.Json.{encode_execution_state}
use nest_convoy.Saga.Actions.{SagaActions}
use nest_convoy.Saga.Step.{SagaStep}
use nest_convoy.Saga.Definition.{handle_reply, make_end_state_saga_actions}
use nest_convoy.Saga.Definition.Progress.{rank}
use nest_convoy.Saga.Definition.Replies.{Next, ended, moved, Turn, handle_reply-Turn}
use nest_convoy.Saga.Definition.Termination.{waiting_bound}
use nest_convoy.Saga.Instance.{SagaInstance}
use nest_convoy.Saga.Manager.{
  keep, SagaManager, on_data, state_text, create_failure_message, create_success_message,
  definition_reply, get_saga_definition, apply_actions, process_actions, process_actions_or,
}

module _ {S D P : Type 0} (g : SagaManager S D P) (steps : List (SagaStep D P))
    (defined : g.saga.saga_definition ≡ some steps) where
  abbrev rank_of : SagaExecutionState → ℕ
  rank_of s = rank (length steps) s.compensating s.currently_executing

  on_data-eq-ok :
      (m : M D (SagaActions P)) (d : D) (st st' : S) (next : SagaActions P × D)
      → on_data m d st ≡ (ok next, st')
      → m d ≡ (ok next.0, next.1)
  on_data-eq-ok m d st st' next h = go (m d) refl h
    where
      go :
          (r : Result (SagaActions P) × D)
          → m d ≡ r
          → keep r st ≡ (ok next, st')
          → m d ≡ (ok next.0, next.1)
      go (ok a, d') e k =
          let same : (a, d') ≡ next = pure-eq-ok (a, d') st k in
          e ∙ ap (λ (n : SagaActions P × D). (ok n.0, n.1)) same
      go (err x, d') e k = absurd (no_value (ap (λ (q : Result (SagaActions P × D) × S). q.0) k))
        where
          no_value : err x ≡ ok next → ⊥
          no_value q = cc

  definition_reply_lem :
      (state : Text) (m : Message P) (d : D) (st : S)
      → definition_reply g state m d st ≡ on_data (handle_reply g.parse_reply steps state m) d st
  unfolding definition_reply get_saga_definition
  definition_reply_lem state m d st = rw (defined, get_saga_definition)

  -- The actions of a reply lead to a state with less to come.
  reply-Next :
      (s : SagaExecutionState) (m : Message P) (d : D) (st st' : S) (next : SagaActions P × D)
      → definition_reply g (encode_execution_state s) m d st ≡ (ok next, st')
      → (t : SagaExecutionState) × Next steps t next.0 × (rank_of t ≤ rank_of s)
  reply-Next s m d st st' next h = by_turn (
      handle_reply-Turn g.parse_reply steps s m d next.1 next.0 (
        on_data-eq-ok (handle_reply g.parse_reply steps (encode_execution_state s) m) d st st' next
          (sym (definition_reply_lem (encode_execution_state s) m d st) ∙ h)))
    where
      by_turn :
          Turn g.parse_reply steps s m next.0
          → (t : SagaExecutionState) × Next steps t next.0 × (rank_of t ≤ rank_of s)
      by_turn (step, e, inl (_, n)) = (s, n, omega arith)
      by_turn (step, e, inr (_, _, n)) =
          let (_, less, _) =
            waiting_bound g.parse_reply steps s.compensating s.currently_executing step e in
          (start_compensating s, n, unfold start_compensating in less)

  -- One round, the rest of the loop being `again`.
  round :
      SagaInstance D
      → D
      → SagaActions P
      → (SagaInstance D → D → SagaActions P → M S (SagaInstance D))
      → M S (SagaInstance D)
  round inst d actions again = elim actions.local_exception [
    | some e ↦
        definition_reply g (state_text actions.updated_state)
          (create_failure_message g.empty_payload) d
        >>= λ next. again inst next.1 next.0
    | none ↦ apply_actions g inst d actions >>= λ applied.
        if actions.is_local
        then (definition_reply g (state_text actions.updated_state)
              (create_success_message g.empty_payload) applied.1
            >>= λ next. again applied.0 next.1 next.0)
        else pure applied.0
  ]

  process_actions_or-round :
      (out : SagaInstance D → D → SagaActions P → M S (SagaInstance D)) (rounds : ℕ)
      (inst : SagaInstance D) (d : D) (a : SagaActions P)
      → process_actions_or out (suc rounds) g inst d a
        ≡ round inst d a (process_actions_or out rounds g)
  unfolding process_actions_or round
  process_actions_or-round out rounds inst d a = refl

  -- A round whose actions are those of a moved saga asks for the rest at most at its new state.
  round-cong :
      (inst : SagaInstance D) (d : D) (a : SagaActions P) (s : SagaExecutionState)
      (f f' : SagaInstance D → D → SagaActions P → M S (SagaInstance D)) (st : S)
      → a.updated_state ≡ some (encode_execution_state s)
      → ((inst' : SagaInstance D) (d' : D) (a' : SagaActions P) (t : SagaExecutionState) (st' : S)
          → Next steps t a'
          → rank_of t ≤ rank_of s
          → f inst' d' a' st' ≡ f' inst' d' a' st')
      → round inst d a f st ≡ round inst d a f' st
  unfolding round
  round-cong inst d a s f f' st u h = elim (Option-cases a.local_exception) [
    | inl fine ↦
        rw (fine, u)
          (>>=-cong
            (apply_actions g inst d (record a {
              updated_state = some (encode_execution_state s);
              local_exception = none;
            }))
            _ _ st (λ applied st₁ _. after applied st₁))
    | inr (e, failed) ↦ rw (failed, u) (ask (create_failure_message g.empty_payload) inst d st)
  ]
    where
      ask :
          (m : Message P) (inst' : SagaInstance D) (d₁ : D) (st₁ : S)
          → (definition_reply g (encode_execution_state s) m d₁ >>= λ next. f inst' next.1 next.0)
              st₁
            ≡ (definition_reply g (encode_execution_state s) m d₁ >>= λ next.
                  f' inst' next.1 next.0)
                st₁
      ask m inst' d₁ st₁ =
          >>=-cong (definition_reply g (encode_execution_state s) m d₁) _ _ st₁ (λ next st₂ e.
            let (t, n, less) = reply-Next s m d₁ st₁ st₂ next e in
            h inst' next.1 next.0 t st₂ n less)

      again :
          SagaInstance D × D
          → (SagaInstance D → D → SagaActions P → M S (SagaInstance D))
          → M S (SagaInstance D)
      again applied k =
          if a.is_local
          then (definition_reply g (encode_execution_state s)
                (create_success_message g.empty_payload) applied.1
              >>= λ next. k applied.0 next.1 next.0)
          else pure applied.0

      after : (applied : SagaInstance D × D) (st₁ : S) → again applied f st₁ ≡ again applied f' st₁
      after applied st₁ = elim (Bool-cases a.is_local) [
        | inr stop ↦ rw stop refl
        | inl on ↦ rw on (ask (create_success_message g.empty_payload) applied.0 applied.1 st₁)
      ]

  -- The actions of the end ask for no other round.
  round-ended :
      (inst : SagaInstance D) (d : D) (a : SagaActions P) (s : SagaExecutionState)
      (f f' : SagaInstance D → D → SagaActions P → M S (SagaInstance D))
      → a ≡ make_end_state_saga_actions s
      → round inst d a f ≡ round inst d a f'
  unfolding round make_end_state_saga_actions
  round-ended inst d a s f f' e = rw e refl

  process_actions_or-rounds :
      (out out' : SagaInstance D → D → SagaActions P → M S (SagaInstance D)) (n : ℕ)
      (rounds rounds' : ℕ) (inst : SagaInstance D) (d : D) (a : SagaActions P)
      (s : SagaExecutionState) (st : S)
      → Next steps s a
      → rank_of s ≤ n
      → n < rounds
      → n < rounds'
      → process_actions_or out rounds g inst d a st ≡ process_actions_or out' rounds' g inst d a st
  process_actions_or-rounds out out' n zero rounds' inst d a s st next fits more more' =
      absurd (omega arith)
  process_actions_or-rounds out out' n (suc r) zero inst d a s st next fits more more' =
      absurd (omega arith)
  process_actions_or-rounds out out' n (suc r) (suc r') inst d a s st (ended e) fits more more' =
      rw
        (
          process_actions_or-round out r inst d a,
          process_actions_or-round out' r' inst d a,
          round-ended inst d a s (process_actions_or out r g) (process_actions_or out' r' g) e,
        )
        refl
  process_actions_or-rounds out out' zero (suc r) (suc r') inst d a s st
        (moved s' step here less same u e c k) fits more more' =
      absurd (omega arith)
  process_actions_or-rounds out out' (suc n) (suc r) (suc r') inst d a s st
        (moved s' step here less same u e c k) fits more more' =
      rw (process_actions_or-round out r inst d a, process_actions_or-round out' r' inst d a)
        (round-cong inst d a s' (process_actions_or out r g) (process_actions_or out' r' g) st u
          (λ inst' d' a' t st' next lower.
            process_actions_or-rounds out out' n r r' inst' d' a' t st' next (omega arith)
              (omega arith) (omega arith)))

  -- The loop ends by its own test, or by an exception of what it calls: for actions that a definition
  -- gives for a state, more rounds than the state's rank are enough. Whatever a loop does that is
  -- out of rounds, and however many more rounds it has, the outcome is the same.
  pub process_actions-rounds :
      (out : SagaInstance D → D → SagaActions P → M S (SagaInstance D)) (rounds rounds' : ℕ)
      (inst : SagaInstance D) (d : D) (a : SagaActions P) (s : SagaExecutionState) (st : S)
      → Next steps s a
      → rank_of s < rounds
      → rank_of s < rounds'
      → process_actions rounds g inst d a st ≡ process_actions_or out rounds' g inst d a st
  unfolding process_actions
  process_actions-rounds out rounds rounds' inst d a s st next more more' =
      process_actions_or-rounds (λ i e b. throw error) out (rank_of s) rounds rounds' inst d a s st
        next (omega arith) more more'
