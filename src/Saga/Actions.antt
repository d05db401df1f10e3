-- ===== src/Saga/Actions.antt =====
-- packages/sagas/orchestration/saga-actions.ts. The builder is a value that each `with...` returns
-- changed.
use nest_convoy.Prelude.{Text, Bool, true, false, Option, none, some, List, [], ◌∷◌, ◌++◌}
use nest_convoy.Common.Exceptions.{Exception}
use nest_convoy.Commands.Command.{CommandWithDestination}

-- The updated data is the object that the saga's handlers change in place, so it is the state of
-- the computation that returns the actions; here stands whether it was set.
pub record SagaActions (P : Type 0) : Type 0 where
  pub commands : List (CommandWithDestination P)
  pub end_state : Bool
  pub compensating : Bool
  pub is_local : Bool
  pub updated_saga_data : Bool
  pub updated_state : Option Text
  pub local_exception : Option Exception

-- `new SagaActionsBuilder()`; `build()` copies the fields.
abbrev pub builder : {P : Type 0} → SagaActions P
builder = record {
  commands = [];
  end_state = false;
  compensating = false;
  is_local = false;
  updated_saga_data = false;
  updated_state = none;
  local_exception = none;
}

module _ {P : Type 0} where
  abbrev pub with_command : CommandWithDestination P → SagaActions P → SagaActions P
  with_command c a = record a { commands = a.commands ++ c ∷ [] }

  abbrev pub with_commands : List (CommandWithDestination P) → SagaActions P → SagaActions P
  with_commands cs a = record a { commands = a.commands ++ cs }

  abbrev pub with_updated_state : Text → SagaActions P → SagaActions P
  with_updated_state s a = record a { updated_state = some s }

  abbrev pub with_updated_saga_data : SagaActions P → SagaActions P
  with_updated_saga_data a = record a { updated_saga_data = true }

  abbrev pub with_is_end_state : Bool → SagaActions P → SagaActions P
  with_is_end_state e a = record a { end_state = e }

  abbrev pub with_is_compensating : Bool → SagaActions P → SagaActions P
  with_is_compensating c a = record a { compensating = c }

  abbrev pub with_is_local : Option Exception → SagaActions P → SagaActions P
  with_is_local e a = record a { local_exception = e; is_local = true }
