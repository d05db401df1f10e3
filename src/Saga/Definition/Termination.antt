-- ===== src/Saga/Definition/Termination.antt =====
-- Series of replies to packages/sagas/orchestration/dsl/nest-saga-definition.ts.
use nest_convoy.Prelude.{
  get_elem?-lt, ℕ, suc, ◌+◌, ◌≤◌, ◌<◌, ◌≡◌, refl, sym, ap, ◌∙◌, String, Bool, true, false, some,
  List, length, arith, inl, inr,
}
use nest_convoy.Prelude.Int.{ℤ, pos, negsuc}
use nest_convoy.Prelude.Result.{Result, ok, err}
use nest_convoy.Prelude.Effect.{throw}
use nest_convoy.Common.Exceptions.{runtime}
use nest_convoy.Messaging.Message.{Message}
use nest_convoy.Saga.State.{SagaExecutionState, initial_state, make_end_state, start_compensating}
use nest_convoy.Saga.State.Json.{encode_execution_state, decode_execution_state}
use nest_convoy.Saga.State.Json.RoundTrip.{decode-encode}
use nest_convoy.Saga.Actions.{SagaActions}
use nest_convoy.Saga.Step.{SagaStep}
use nest_convoy.Saga.Definition.{at, handle_reply, make_end_state_saga_actions, start}
use nest_convoy.Saga.Definition.Progress.{rank}
use nest_convoy.Saga.Definition.Replies.{
  Next, ended, moved, Turn, handle_reply-Turn, handle_reply_no_step, start-Next,
}

-- A series of replies that are accepted, each at the state that the one before saved.
pub data Accepted {D P : Type 0} (plain_to_class : String → P → Result P)
    (steps : List (SagaStep D P)) : SagaExecutionState → ℕ → Type 0 where
  none_yet : {s : SagaExecutionState} → Accepted plain_to_class steps s 0
  reply :
      {s : SagaExecutionState} {n : ℕ} (s' : SagaExecutionState) (m : Message P) (d d' : D)
      (a : SagaActions P)
      → handle_reply plain_to_class steps (encode_execution_state s) m d ≡ (ok a, d')
      → a.updated_state ≡ some (encode_execution_state s')
      → Accepted plain_to_class steps s' n
      → Accepted plain_to_class steps s (suc n)

encode_inj :
    (s s' : SagaExecutionState) → encode_execution_state s ≡ encode_execution_state s' → s ≡ s'
encode_inj s s' e = ok_inj (sym (decode-encode s) ∙ ap decode_execution_state e ∙ decode-encode s')
  where
    ok_inj : ok s ≡ ok s' → s ≡ s'
    ok_inj q = cc

some_encode_inj :
    (s s' : SagaExecutionState)
    → some (encode_execution_state s) ≡ some (encode_execution_state s')
    → s ≡ s'
some_encode_inj s s' e = encode_inj s s' (cc)

module _ {D P : Type 0} (plain_to_class : String → P → Result P) (steps : List (SagaStep D P)) where
  abbrev fuel_of : SagaExecutionState → ℕ
  fuel_of s = rank (length steps) s.compensating s.currently_executing

  ended_accepts_none :
      {n : ℕ} (s : SagaExecutionState)
      → s ≡ make_end_state
      → Accepted plain_to_class steps s n
      → n ≡ 0
  ended_accepts_none s e none_yet = refl
  ended_accepts_none s e (reply s' m d d' a h u r) = absurd (no_value (sym refused ∙ h))
    where
      refused : handle_reply plain_to_class steps (encode_execution_state s) m d ≡ (err runtime, d)
      refused = handle_reply_no_step plain_to_class steps s m d (rw e refl)

      no_value : throw runtime d ≡ (ok a, d') → ⊥
      no_value q = cc

  -- The replies after a step that is taken are fewer than its state allowed.
  Next-bound :
      (s s' : SagaExecutionState) (a : SagaActions P) (n : ℕ)
      → 0 < fuel_of s
      → Next steps s a
      → a.updated_state ≡ some (encode_execution_state s')
      → Accepted plain_to_class steps s' n
      → n ≤ fuel_of s'
      → n < fuel_of s
  Next-bound s s' a n some_left (ended e) u r ih =
      let last : s' ≡ make_end_state =
        some_encode_inj s' make_end_state
          (sym u ∙ ap (λ (b : SagaActions P). b.updated_state) e ∙ end_actions s) in
      omega (arith, ended_accepts_none s' last r)
    where
      end_actions :
          (t : SagaExecutionState)
          → (make_end_state_saga_actions {P = P} t).updated_state
            ≡ some (encode_execution_state make_end_state)
      end_actions t = unfold make_end_state_saga_actions in refl
  Next-bound s s' a n some_left (moved s₁ step here less same u₁ e c k) u r ih =
      let one : s' ≡ s₁ = some_encode_inj s' s₁ (sym u ∙ u₁) in omega (arith, ap fuel_of one)

  pub waiting_bound :
      (c : Bool) (i : ℤ) (step : SagaStep D P)
      → at steps i ≡ some step
      → (0 < rank (length steps) c i)
        × (rank (length steps) true i ≤ rank (length steps) c i)
        × (0 < rank (length steps) true i)
  waiting_bound true (pos i) step e = omega arith
  waiting_bound false (pos i) step e = omega (arith, get_elem?-lt steps i step e)
  waiting_bound c (negsuc i) step e = cc

  Turn-bound :
      (s s' : SagaExecutionState) (m : Message P) (a : SagaActions P) (n : ℕ)
      → Turn plain_to_class steps s m a
      → a.updated_state ≡ some (encode_execution_state s')
      → Accepted plain_to_class steps s' n
      → n ≤ fuel_of s'
      → n < fuel_of s
  unfolding start_compensating
  Turn-bound s s' m a n (step, e, inl (_, next)) u r ih =
      Next-bound s s' a n (waiting_bound s.compensating s.currently_executing step e).0 next u r ih
  Turn-bound s s' m a n (step, e, inr (_, _, next)) u r ih =
      let (_, less, left) = waiting_bound s.compensating s.currently_executing step e in
      omega (arith, Next-bound (start_compensating s) s' a n left next u r ih)

  -- From a state a definition accepts no more replies than its rank.
  pub Accepted-le-rank :
      {n : ℕ} (s : SagaExecutionState) → Accepted plain_to_class steps s n → n ≤ fuel_of s
  Accepted-le-rank s none_yet = omega arith
  Accepted-le-rank s (reply {n = k} s' m d d' a h u r) =
      Turn-bound s s' m a k (handle_reply-Turn plain_to_class steps s m d d' a h) u r
        (Accepted-le-rank s' r)

  -- After its start a saga of n steps accepts at most 2 n + 1 replies, whatever they report.
  pub Accepted-bound :
      {n : ℕ} (d d' : D) (a : SagaActions P) (s : SagaExecutionState)
      → start steps d ≡ (ok a, d')
      → a.updated_state ≡ some (encode_execution_state s)
      → Accepted plain_to_class steps s n
      → n ≤ length steps + length steps + 1
  Accepted-bound {n} d d' a s h u r = omega (
    arith,
    Next-bound initial_state s a n (omega arith) (start-Next steps d d' a h) u r
        (Accepted-le-rank s r),
  )
