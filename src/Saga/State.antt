-- ===== src/Saga/State.antt =====
-- packages/sagas/orchestration/dsl/saga-execution-state.ts.
pub mod Json
use nest_convoy.Prelude.{ℕ, Bool, true, false, if◌then◌else◌}
use nest_convoy.Prelude.Int.{ℤ, pos, negsuc, ◌+ℤ◌, ◌-ℤ◌}

pub record SagaExecutionState : Type 0 where
  pub currently_executing : ℤ
  pub compensating : Bool
  pub end_state : Bool

-- `new SagaExecutionState()`, the state before the first step.
abbrev pub initial_state : SagaExecutionState
initial_state = record { currently_executing = negsuc 0; compensating = false; end_state = false }

abbrev pub make_end_state : SagaExecutionState
make_end_state = record { currently_executing = negsuc 0; compensating = false; end_state = true }

unfoldable pub start_compensating : SagaExecutionState → SagaExecutionState
start_compensating s = record {
  currently_executing = s.currently_executing;
  compensating = true;
  end_state = false;
}

unfoldable pub next_state : SagaExecutionState → ℕ → SagaExecutionState
next_state s size = record {
  currently_executing =
      if s.compensating
      then s.currently_executing -ℤ pos size
      else s.currently_executing +ℤ pos size;
  compensating = s.compensating;
  end_state = false;
}
