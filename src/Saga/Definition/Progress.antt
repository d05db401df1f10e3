-- ===== src/Saga/Definition/Progress.antt =====
-- The step that `nextStepToExecute` of nest-saga-definition.ts (packages/sagas/orchestration/dsl)
-- finds, and the rank of a saved state.
use nest_convoy.Prelude.{
  get_elem?-lt, subst, ℕ, zero, suc, ◌+◌, ◌-◌, ◌<◌, ◌≡◌, refl, sym, ap, ◌∙◌, Bool, true, false,
  none, some, List, [], ◌∷◌, if◌then◌else◌, ltb, length, get_elem?, drop, arith, Bool-cases,
  Option-cases, inl, inr, ◌⊎◌,
}
use nest_convoy.Prelude.Int.{ℤ, pos, negsuc, ◌+ℤ◌, ◌-ℤ◌}
use nest_convoy.Prelude.Result.{ok}
use nest_convoy.Prelude.Effect.{pure-eq-ok, pure, >>=-eq-ok}
use nest_convoy.Saga.State.{SagaExecutionState}
use nest_convoy.Saga.Step.{SagaStep}
use nest_convoy.Saga.Definition.{
  StepToExecute, step_size, at, wanted, to_execute, next_step_to_execute,
}
use nest_convoy.Saga.Definition.Search.{
  down-some, down-none, down-zero, down, ahead, first_wanted, next_step_to_execute-first_wanted,
}

module _ {D P : Type 0} where
  -- The step found is the first of those ahead that was not passed over.
  abbrev Found : Bool → List (SagaStep D P) → ℕ → StepToExecute D P → Type 0
  Found c steps skipped t =
      (t.compensating ≡ c)
      × ((t.step ≡ none)
          ⊎ ((j : ℕ) × (step : SagaStep D P) × (t.step ≡ some step)
              × (get_elem? steps j ≡ some step)
              × (t.skipped ≡ skipped + j)))

  first_wanted-Found :
      (c : Bool) (steps : List (SagaStep D P)) (skipped : ℕ) (d d' : D) (t : StepToExecute D P)
      → first_wanted c steps skipped d ≡ (ok t, d')
      → Found c steps skipped t
  unfolding first_wanted
  first_wanted-Found c [] skipped d d' t h =
      subst (Found c [] skipped) (pure-eq-ok (to_execute skipped c none) d h) (refl, inl refl)
  first_wanted-Found c (step ∷ steps) skipped d d' t h =
      let (b, d₁, asked, rest) = >>=-eq-ok (wanted c step) _ d h in
      choose d₁ (first_wanted-Found c steps (suc skipped) d₁ d' t) b rest
    where
      later : Found c steps (suc skipped) t → Found c (step ∷ steps) skipped t
      later (same, inl none_left) = (same, inl none_left)
      later (same, inr (j, s, e, g, k)) = (same, inr (suc j, s, e, g, omega arith))

      choose :
          (d₁ : D)
          → (first_wanted c steps (suc skipped) d₁ ≡ (ok t, d') → Found c steps (suc skipped) t)
          → (b : Bool)
          → (if b
                then pure (to_execute skipped c (some step))
                else first_wanted c steps (suc skipped))
              d₁
            ≡ (ok t, d')
          → Found c (step ∷ steps) skipped t
      choose d₁ ih true r =
          subst (Found c (step ∷ steps) skipped)
            (pure-eq-ok (to_execute skipped c (some step)) d₁ r)
            (refl, inr (0, step, refl, refl, omega arith))
      choose d₁ ih false r = later (ih r)

-- How many more replies a state can lead to: below the steps' number while compensating, above it
-- before.
abbrev pub rank : ℕ → Bool → ℤ → ℕ
rank n true (pos i) = suc i
rank n true (negsuc i) = 0
rank n false (pos i) = suc (n + (n - i))
rank n false (negsuc i) = suc (n + suc n)

abbrev pub move : Bool → ℤ → ℕ → ℤ
move c i size = if c then i -ℤ pos size else i +ℤ pos size

move_up : (i j : ℕ) → move false (pos i) (suc j) ≡ pos (suc (i + j))
move_up i j = ground arith

move_down : (i j : ℕ) → j < i → move true (pos i) (suc j) ≡ pos (i - suc j)
move_down i j h = ground arith

module _ {D P : Type 0} where
  get-drop :
      (k j : ℕ) (steps : List (SagaStep D P)) → get_elem? (drop k steps) j ≡ get_elem? steps (k + j)
  get-drop zero j steps = ap (get_elem? steps) (omega arith)
  get-drop (suc k) j [] = refl
  get-drop (suc k) j (s ∷ steps) = get-drop k j steps ∙ ap (get_elem? (s ∷ steps)) step
    where
      step : suc (k + j) ≡ suc k + j
      step = omega arith

  get-down-cons :
      (i j : ℕ) (steps : List (SagaStep D P)) (s step : SagaStep D P)
      → ((k : ℕ)
          → get_elem? (down i steps) k ≡ some step
          → (k < i) × (get_elem? steps (i - suc k) ≡ some step))
      → get_elem? steps i ≡ some s
      → get_elem? (s ∷ down i steps) j ≡ some step
      → (j < suc i) × (get_elem? steps (suc i - suc j) ≡ some step)
  get-down-cons i zero steps s step below here e =
      (omega arith, ap (get_elem? steps) (omega arith) ∙ here ∙ e)
  get-down-cons i (suc j) steps s step below here e =
      let (less, at_k) = below j e in (omega arith, ap (get_elem? steps) (omega arith) ∙ at_k)

  get-down :
      (i j : ℕ) (steps : List (SagaStep D P)) (step : SagaStep D P)
      → get_elem? (down i steps) j ≡ some step
      → (j < i) × (get_elem? steps (i - suc j) ≡ some step)
  get-down zero j steps step e = absurd (none_some (rw (down-zero steps) at e))
    where
      none_some : get_elem? [] j ≡ some step → ⊥
      none_some q = cc
  get-down (suc i) j steps step e =
      let below = λ (k : ℕ). get-down i k steps step in
      elim (Option-cases (get_elem? steps i)) [
        | inl missing ↦ absurd (none_some (rw (down-none i steps missing) at e))
        | inr (s, here) ↦
            get-down-cons i j steps s step below here (rw (down-some i steps s here) at e)
      ]
    where
      none_some : get_elem? [] j ≡ some step → ⊥
      none_some q = cc

  -- An entry of the steps ahead stands at the index that the new state holds, and leads on.
  ahead-at :
      (c : Bool) (i : ℤ) (steps : List (SagaStep D P)) (j : ℕ) (step : SagaStep D P)
      → get_elem? (ahead c i steps) j ≡ some step
      → (at steps (move c i (suc j)) ≡ some step)
        × (rank (length steps) c (move c i (suc j)) < rank (length steps) c i)
  ahead-at false (pos i) steps j step e =
      let found = sym (get-drop (suc i) j steps) ∙ e in
      let inside = get_elem?-lt steps (suc i + j) step found in
      rw (move_up i j) (ap (get_elem? steps) (omega arith) ∙ found, omega arith)
  ahead-at false (negsuc zero) steps j step e =
      let start : move false (negsuc 0) (suc j) ≡ pos j = ground arith in rw start (e, omega arith)
  ahead-at false (negsuc (suc i)) steps j step e = cc
  ahead-at true (pos i) steps j step e = elim (Bool-cases (ltb (length steps) i)) [
    | inl beyond ↦ absurd (none_some beyond e)
    | inr within ↦
        let (less, found) = get-down i j steps step (rw within at e) in
        rw (move_down i j less) (found, omega arith)
  ]
    where
      none_some :
          ltb (length steps) i ≡ true
          → get_elem? (if ltb (length steps) i then [] else down i steps) j ≡ some step
          → ⊥
      none_some b q = absurd (none_nil (rw b at q))
        where
          none_nil : get_elem? [] j ≡ some step → ⊥
          none_nil x = cc
  ahead-at true (negsuc i) steps j step e = cc

  abbrev pub Located : List (SagaStep D P) → SagaExecutionState → SagaStep D P → ℕ → Type 0
  Located steps s step size =
      (at steps (move s.compensating s.currently_executing size) ≡ some step)
      × (rank (length steps) s.compensating (move s.compensating s.currently_executing size)
          < rank (length steps) s.compensating s.currently_executing)

  located :
      (steps : List (SagaStep D P)) (s : SagaExecutionState) (t : StepToExecute D P)
      (step : SagaStep D P)
      → t.step ≡ some step
      → Found s.compensating (ahead s.compensating s.currently_executing steps) 0 t
      → (t.compensating ≡ s.compensating) × Located steps s step (step_size t)
  located steps s t step e (same, inl none_left) = absurd (clash (sym none_left ∙ e))
    where
      clash : none ≡ some step → ⊥
      clash q = cc
  located steps s t step e (same, inr (j, step', e', at_j, k)) =
      let one : step' ≡ step = ground arith in
      let size : suc j ≡ step_size t = rw e (omega arith) in
      let here = ahead-at s.compensating s.currently_executing steps j step (rw one at at_j) in
      (same, subst (Located steps s step) size here)

  -- The state that is saved with a step names that step, keeps the direction and has less to come.
  pub next_step-at :
      (steps : List (SagaStep D P)) (s : SagaExecutionState) (d d' : D) (t : StepToExecute D P)
      (step : SagaStep D P)
      → next_step_to_execute steps s d ≡ (ok t, d')
      → t.step ≡ some step
      → (t.compensating ≡ s.compensating) × Located steps s step (step_size t)
  next_step-at steps s d d' t step h e =
      let run = rw (next_step_to_execute-first_wanted steps s) at h in
      located steps s t step e (first_wanted-Found s.compensating _ 0 d d' t run)
