-- ===== src/Saga/Tests.antt =====
-- Runs of packages/sagas with a manager of one saga.
use nest_convoy.Prelude.{◌∷◌, false, ◌≡◌, refl, [], none, some, ℕ, arith}
use nest_convoy.Prelude.Result.{ok}
use nest_convoy.Prelude.Effect.{M, pure}
use nest_convoy.Messaging.Headers.{MessageHeaders}
use nest_convoy.Messaging.Message.{Message, plain, get_header}
use nest_convoy.Commands.Command.{CommandWithDestination}
use nest_convoy.Commands.Headers.{
  correlate_message_headers, reply_saga_type, reply_saga_id, in_reply_to,
}
use nest_convoy.Commands.Dispatcher.{correlate_reply}
use nest_convoy.Saga.State.{initial_state}
use nest_convoy.Saga.State.Json.{encode_execution_state, decode_execution_state}
use nest_convoy.Saga.State.Json.RoundTrip.{decode-encode}
use nest_convoy.Saga.Instance.{SagaInstance, SagaInstanceRepository}
use nest_convoy.Saga.Locks.{no_locks}
use nest_convoy.Saga.Manager.{process_actions_or, SagaManager, Saga, process_actions}
use nest_convoy.Saga.Manager.Fuel.{process_actions-rounds}
use nest_convoy.Saga.Definition.Replies.{start-Next}
use nest_convoy.Saga.Definition.Tests.{one_step, one_step_starts, local_actions, at_step}
use nest_convoy.Saga.Correlation.{sent_command, reply_reaches_saga}
use nest_convoy.Prelude.{◌==◌}
use nest_convoy.Prelude.Effect.{◌>>=◌, throw}
use nest_convoy.Common.Exceptions.{foreign, runtime}
use nest_convoy.Messaging.Headers.{get}
use nest_convoy.Messaging.Message.{type_header, get_required_header, to_string}
use nest_convoy.Messaging.Producer.Tests.{broker}
use nest_convoy.Commands.Headers.{command_type, reply_to, saga_type_header, saga_id_header}
use nest_convoy.Saga.State.{start_compensating}
use nest_convoy.Saga.Actions.{SagaActions}
use nest_convoy.Saga.Definition.{execute_next_step}
use nest_convoy.Saga.Definition.Tests.{count}
use nest_convoy.Saga.Manager.{on_data}
use nest_convoy.Saga.Manager.Branches.{process_actions_turns_round}
use nest_convoy.Prelude.Dict.{string_key}

abbrev typed : Message ℕ
typed = plain 0 ((type_header, "Success") ∷ [])

abbrev counting : Saga ℕ ℕ ℕ
counting = record {
  saga_type = "Counting";
  saga_definition = some one_step;
  on_starting = none;
  on_saga_rolled_back = none;
  on_saga_completed_successfully = none;
}

abbrev instances : SagaInstanceRepository ℕ ℕ
instances = record {
  find_instance = λ type id. pure none;
  save_instance = λ i. pure (record i { saga_id = some "1" });
  update_instance = λ i. pure tt;
}

abbrev manager : SagaManager ℕ ℕ ℕ
manager = record {
  saga = counting;
  repository = instances;
  producer = broker;
  locks = no_locks;
  parse_reply = λ name p. ok p;
  empty_payload = 0;
  data_type = λ d. "Data";
}

abbrev instance_one : SagaInstance ℕ
instance_one = record {
  saga_type = "Counting";
  saga_id = some "1";
  state_name = [];
  last_request_id = none;
  saga_data_type = "Data";
  saga_data = 3;
  destinations_and_resources = [];
  end_state = false;
  compensating = false;
}

abbrev reserve : CommandWithDestination ℕ
reserve = record {
  channel = "orders";
  command = record { constructor_name = "Reserve"; plain_form = 5 };
  resource = none;
  extra_headers = [];
}

decode-encode_example :
    decode_execution_state (encode_execution_state (at_step 12)) ≡ ok (at_step 12)
decode-encode_example = decode-encode (at_step 12)

abbrev stuck : SagaInstance ℕ → ℕ → SagaActions ℕ → M ℕ (SagaInstance ℕ)
stuck i d a = throw (foreign 1)

process_actions-rounds_example :
    process_actions 11 manager instance_one 4 (local_actions 0) 0
    ≡ process_actions_or stuck 99 manager instance_one 4 (local_actions 0) 0
process_actions-rounds_example =
    process_actions-rounds manager one_step refl stuck 11 99 instance_one 4 (local_actions 0)
      initial_state 0 (start-Next one_step 3 4 (local_actions 0) one_step_starts) (omega arith)
      (omega arith)

abbrev empty : Message ℕ
empty = plain 0 []

abbrev sent : Message ℕ
sent = sent_command "Counting" "1" [] reserve "Counting-reply" "m1" "today"

reply_reaches_saga_example :
    (c : MessageHeaders) × (correlate_message_headers sent.headers ≡ ok c)
    × (get_header reply_saga_type (correlate_reply c empty) ≡ "Counting")
    × (get_header reply_saga_id (correlate_reply c empty) ≡ "1")
    × (get_header in_reply_to (correlate_reply c empty) ≡ "m1")
reply_reaches_saga_example =
    reply_reaches_saga "Counting" "1" [] reserve "Counting-reply" "m1" "today" empty tt

empty_typed : to_string typed ≡ ok tt
unfolding to_string get_required_header get_header get
empty_typed = refl

no_saga : (get_header reply_saga_type typed == manager.saga.saga_type) ≡ false
unfolding get_header get
no_saga = refl

abbrev failing : SagaActions ℕ
failing = record (local_actions 0) { local_exception = some runtime }

process_actions_turns_round_example :
    process_actions 6 manager instance_one 4 failing 0
    ≡ (on_data (execute_next_step one_step (start_compensating (at_step 0))) 4 >>= λ next.
          process_actions 5 manager instance_one next.1 next.0)
        0
process_actions_turns_round_example =
    process_actions_turns_round manager one_step refl (at_step 0) count none refl 5 instance_one 4
      failing runtime 0 refl refl refl

abbrev command : Message ℕ
command = plain 5 (
    (command_type, "Reserve")
    ∷ (reply_to, "orders-reply")
    ∷ (type_header, "Reserve")
    ∷ (saga_type_header, "Counting")
    ∷ (saga_id_header, "1")
    ∷ [])

abbrev unsaved : ℕ → SagaInstance ℕ
unsaved n = record instance_one { saga_id = none; saga_data = n }
