-- ===== src/Core/Tests.antt =====
-- A decorated class at concrete inputs.
use nest_convoy.Prelude.{ℕ, String, false, none, some, List, [], ◌∷◌, ◌++◌}
use nest_convoy.Prelude.Effect.{pure, throw, modify}
use nest_convoy.Common.Exceptions.{error}
use nest_convoy.Core.{HandlerMethod, on_message, DispatcherFactories}

-- The names of what was subscribed.
abbrev factories : DispatcherFactories (List String) ℕ ℕ
factories = record {
  subscribe_commands = λ name handlers. modify (λ names. names ++ ("commands of " ∷ name ∷ []));
  subscribe_events = λ name handlers. modify (λ names. names ++ ("events of " ∷ name ∷ []));
  subscribe_saga_commands =
      some (λ name handlers. modify (λ names. names ++ ("saga commands of " ∷ name ∷ [])));
}

abbrev reserve : HandlerMethod ℕ ℕ
reserve =
    on_message "ReserveCreditCommand"
      (record { with_lock = false; pre_lock = some (λ cm. pure "1") })
      (record {
        command_type = none;
        handled_event = none;
        on_command = λ cm. throw error;
        on_event = λ dee. pure tt;
      })
