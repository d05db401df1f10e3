-- ===== src/Saga/Definition/Search.antt =====
-- `nextStepToExecute` of packages/sagas/orchestration/dsl/nest-saga-definition.ts, beside a search
-- in the list of the steps that lie ahead.
use nest_convoy.Prelude.{
  get_elem?-some, get_elem?-lt, ℕ, zero, suc, ◌+◌, ◌<◌, ◌≡◌, refl, ◌∙◌, Bool, true, false, none,
  some, List, [], ◌∷◌, if◌then◌else◌, ltb, length, get_elem?, drop, arith, Bool-cases, inl, inr,
}
use nest_convoy.Prelude.Int.{ℤ, pos, negsuc}
use nest_convoy.Prelude.Effect.{M, ◌>>=◌, pure}
use nest_convoy.Saga.State.{SagaExecutionState}
use nest_convoy.Saga.Step.{SagaStep}
use nest_convoy.Saga.Definition.{
  StepToExecute, wanted, in_range, advance, to_execute, loop_body, search_steps,
  next_step_to_execute,
}

module _ {D P : Type 0} where
  -- The steps below index `k`, the last one first.
  pub down : ℕ → List (SagaStep D P) → List (SagaStep D P)
  down zero steps = []
  down (suc k) steps =
      let below = down k steps in elim (get_elem? steps k) [ none ↦ [] | some step ↦ step ∷ below ]

  -- The steps that lie ahead of an index, in the order in which they come.
  abbrev pub ahead : Bool → ℤ → List (SagaStep D P) → List (SagaStep D P)
  ahead false (pos i) steps = drop (suc i) steps
  ahead false (negsuc zero) steps = steps
  ahead false (negsuc (suc i)) steps = []
  ahead true (pos i) steps = if ltb (length steps) i then [] else down i steps
  ahead true (negsuc i) steps = []

  -- The first step that wants to run, and how many were passed over.
  unfoldable pub first_wanted : Bool → List (SagaStep D P) → ℕ → M D (StepToExecute D P)
  first_wanted compensating [] skipped = pure (to_execute skipped compensating none)
  first_wanted compensating (step ∷ steps) skipped = do
    b ← wanted compensating step
    let rest = first_wanted compensating steps (suc skipped)
    if b then pure (to_execute skipped compensating (some step)) else rest

advance_up : (k : ℕ) → advance false (pos k) ≡ pos (suc k)
advance_up k = ground arith

advance_down : (k : ℕ) → advance true (pos (suc k)) ≡ pos k
advance_down k = ground arith

module _ {D P : Type 0} where
  in_range-pos :
      (k : ℕ) (steps : List (SagaStep D P)) → in_range (pos k) steps ≡ ltb k (length steps)
  in_range-pos k steps = ground arith

  drop-none :
      (k : ℕ) (steps : List (SagaStep D P)) → ltb k (length steps) ≡ false → drop k steps ≡ []
  drop-none zero [] h = refl
  drop-none zero (s ∷ steps) h = ground arith
  drop-none (suc k) [] h = refl
  drop-none (suc k) (s ∷ steps) h = drop-none k steps (ground arith)

  drop-some :
      (k : ℕ) (steps : List (SagaStep D P)) (s : SagaStep D P)
      → get_elem? steps k ≡ some s
      → drop k steps ≡ s ∷ drop (suc k) steps
  drop-some zero (t ∷ steps) s e = ground arith
  drop-some (suc k) (t ∷ steps) s e = drop-some k steps s e
  drop-some _ [] s e = cc

  pub down-some :
      (k : ℕ) (steps : List (SagaStep D P)) (s : SagaStep D P)
      → get_elem? steps k ≡ some s
      → down (suc k) steps ≡ s ∷ down k steps
  unfolding down
  down-some k steps s e = ground arith

  pub down-none :
      (k : ℕ) (steps : List (SagaStep D P)) → get_elem? steps k ≡ none → down (suc k) steps ≡ []
  unfolding down
  down-none k steps e = ground arith

  pub down-zero : (steps : List (SagaStep D P)) → down zero steps ≡ []
  unfolding down
  down-zero steps = refl

  out_of_range :
      (fuel : ℕ) (steps : List (SagaStep D P)) (c : Bool) (i : ℤ) (skipped : ℕ)
      → in_range i steps ≡ false
      → search_steps fuel steps c i skipped ≡ pure (to_execute skipped c none)
  unfolding search_steps
  out_of_range zero steps c i skipped h = refl
  out_of_range (suc fuel) steps c i skipped h = rw h

  round_in_range :
      (fuel : ℕ) (steps : List (SagaStep D P)) (c : Bool) (k skipped : ℕ) (s : SagaStep D P)
      → get_elem? steps k ≡ some s
      → search_steps (suc fuel) steps c (pos k) skipped ≡ (
          wanted c s >>= λ b.
          if b
          then pure (to_execute skipped c (some s))
          else search_steps fuel steps c (advance c (pos k)) (suc skipped))
  unfolding search_steps loop_body
  round_in_range fuel steps c k skipped s e =
      let inside : in_range (pos k) steps ≡ true = ground (arith, get_elem?-lt steps k s e) in
      rw (inside, e, loop_body)

  search_up :
      (fuel k skipped : ℕ) (steps : List (SagaStep D P))
      → length steps < fuel + k
      → search_steps fuel steps false (pos k) skipped ≡ first_wanted false (drop k steps) skipped
  unfolding first_wanted
  search_up zero k skipped steps h = rw (
    out_of_range zero steps false (pos k) skipped (ground arith),
    drop-none k steps (ground arith),
  )
  search_up (suc fuel) k skipped steps h = elim (Bool-cases (ltb k (length steps))) [
    | inl inside ↦
        let (s, e) = get_elem?-some steps k (ground arith) in
        rw (
          round_in_range fuel steps false k skipped s e,
          advance_up k,
          drop-some k steps s e,
          search_up fuel (suc k) (suc skipped) steps (omega arith),
        )
    | inr outside ↦ rw (
      out_of_range (suc fuel) steps false (pos k) skipped (in_range-pos k steps ∙ outside),
      drop-none k steps outside,
    )
  ]

  -- Downwards the index itself bounds the rounds.
  search_down :
      (fuel k skipped : ℕ) (steps : List (SagaStep D P))
      → k < fuel
      → k < length steps
      → search_steps fuel steps true (pos k) skipped
        ≡ first_wanted true (down (suc k) steps) skipped
  unfolding first_wanted
  search_down zero k skipped steps h inside = elim h [ ]
  search_down (suc fuel) zero skipped steps h inside =
      let (s, e) = get_elem?-some steps zero inside in
      rw (
        round_in_range fuel steps true zero skipped s e,
        down-some zero steps s e,
        down-zero steps,
        out_of_range fuel steps true (negsuc 0) (suc skipped) refl,
      )
  search_down (suc fuel) (suc k) skipped steps h inside =
      let (s, e) = get_elem?-some steps (suc k) inside in
      rw (
        round_in_range fuel steps true (suc k) skipped s e,
        advance_down k,
        down-some (suc k) steps s e,
        search_down fuel k (suc skipped) steps (omega arith) (omega arith),
      )

  next_step_to_execute_lem :
      (steps : List (SagaStep D P)) (s : SagaExecutionState)
      → next_step_to_execute steps s
        ≡ search_steps
            (suc (length steps))
            steps
            s.compensating
            (advance s.compensating s.currently_executing)
            0
  unfolding next_step_to_execute
  next_step_to_execute_lem steps s = refl

  search_ahead :
      (steps : List (SagaStep D P)) (c : Bool) (i : ℤ)
      → search_steps (suc (length steps)) steps c (advance c i) 0
        ≡ first_wanted c (ahead c i steps) 0
  unfolding first_wanted
  search_ahead steps false (pos i) =
      rw (advance_up i) (search_up (suc (length steps)) (suc i) 0 steps (omega arith))
  search_ahead steps false (negsuc zero) = search_up (suc (length steps)) zero 0 steps (omega arith)
  search_ahead steps false (negsuc (suc i)) =
      out_of_range (suc (length steps)) steps false _ 0 (ground arith)
  search_ahead steps true (pos zero) =
      let below : ltb (length steps) 0 ≡ false = ground arith in
      rw (below, down-zero steps) (out_of_range (suc (length steps)) steps true (negsuc 0) 0 refl)
  search_ahead steps true (pos (suc i)) = elim (Bool-cases (ltb i (length steps))) [
    | inl inside ↦
        let below : ltb (length steps) (suc i) ≡ false = ground arith in
        rw (advance_down i, below)
          (search_down (suc (length steps)) i 0 steps (ground arith) (ground arith))
    | inr outside ↦
        let beyond : ltb (length steps) (suc i) ≡ true = ground arith in
        rw (advance_down i, beyond)
          (out_of_range (suc (length steps)) steps true (pos i) 0 (in_range-pos i steps ∙ outside))
  ]
  search_ahead steps true (negsuc i) =
      out_of_range (suc (length steps)) steps true _ 0 (ground arith)

  -- The loop runs the first step ahead that wants to run: the steps after the present one in their
  -- order, or those before it in the reverse order. It passes over the others, asks no step
  -- behind the one it finds, and never runs out of rounds.
  pub next_step_to_execute-first_wanted :
      (steps : List (SagaStep D P)) (s : SagaExecutionState)
      → next_step_to_execute steps s
        ≡ first_wanted s.compensating (ahead s.compensating s.currently_executing steps) 0
  next_step_to_execute-first_wanted steps s =
      next_step_to_execute_lem steps s ∙ search_ahead steps s.compensating s.currently_executing
