-- ===== src/Saga/Manager.antt =====
-- packages/sagas/orchestration/saga-manager.ts and saga-command-producer.ts. The manager works on a
-- state `S` with the repository, the lock manager and the producer of messages as its interfaces.
-- An instance that `find` returns is a copy, as one read from a database is. The saga's data is
-- handed on with the instance.
pub mod Fuel
pub mod Branches
use nest_convoy.Prelude.{
  Text, codes, ℕ, zero, suc, String, Bool, true, false, Option, none, some, List, [], ◌∷◌, ◌++◌,
  if◌then◌else◌, ◌==◌,
}
use nest_convoy.Prelude.Result.{◌>>=◌ as then_result, Result, ok, err}
use Prim.Native.String.{◌++◌ as concat}
use nest_convoy.Prelude.Effect.{M, ◌>>=◌, ◌>>◌, pure, throw, lift, for_each}
use nest_convoy.Common.Exceptions.{
  error, type_error, state_machine_empty, cannot_claim_resource_lock,
}
use nest_convoy.Messaging.Headers.{MessageHeaders, set}
use nest_convoy.Messaging.Message.{
  Message, id, get_header, get_required_header, has_header, to_string,
}
use nest_convoy.Messaging.Builder.{with_text_payload, with_reference, with_header, build}
use nest_convoy.Messaging.Producer.{ConvoyMessageProducer}
use nest_convoy.Commands.Command.{
  Instance, CommandWithDestination, CommandReplyOutcome, success, failure, outcome_text,
}
use nest_convoy.Commands.Headers.{
  reply_outcome, reply_type, saga_id_header, saga_type_header, reply_saga_id, reply_saga_type,
  reply_locked, command_destination, in_reply,
}
use nest_convoy.Commands.Producer.{send_command}
use nest_convoy.Commands.Reply.{Target, lock_target, success_reply, failure_reply}
use nest_convoy.Saga.Actions.{SagaActions}
use nest_convoy.Saga.Step.{SagaStep}
use nest_convoy.Saga.Definition.{start, handle_reply}
use nest_convoy.Saga.Instance.{
  DestinationAndResource, SagaInstance, id_text, SagaInstanceRepository,
}
use nest_convoy.Saga.Locks.{SagaLockManager}

-- A saga of the application: the name of its class, its definition, if it has one, and the hooks of
-- its life, which may change the data that they are given.
pub record Saga (S D P : Type 0) : Type 0 where
  pub saga_type : String
  pub saga_definition : Option (List (SagaStep D P))
  pub on_starting : Option (String → D → M S D)
  pub on_saga_rolled_back : Option (String → D → M S D)
  pub on_saga_completed_successfully : Option (String → D → M S D)

pub record SagaManager (S D P : Type 0) : Type 0 where
  pub saga : Saga S D P
  pub repository : SagaInstanceRepository S D
  pub producer : ConvoyMessageProducer S P
  pub locks : SagaLockManager S P
  pub parse_reply : String → P → Result P
  pub empty_payload : P
  pub data_type : D → String

module _ {S D : Type 0} where
  -- A method of the definition, on the saga's data. Where it throws the copy is gone.
  abbrev keep : {A : Type 0} → Result A × D → S → Result (A × D) × S
  keep (ok a, d) s = (ok (a, d), s)
  keep (err e, d) s = (err e, s)

  abbrev pub on_data : {A : Type 0} → M D A → D → M S (A × D)
  on_data m d s = keep (m d) s

  abbrev run_hook : Option (String → D → M S D) → String → D → M S D
  run_hook none saga_id d = pure d
  run_hook (some hook) saga_id d = hook saga_id d

module _ {P : Type 0} where
  outcome_message : Instance P → CommandReplyOutcome → P → Message P
  outcome_message reply outcome empty = build (
      with_header reply_type reply.constructor_name (
        with_header reply_outcome (outcome_text outcome)
          (with_reference reply (with_text_payload empty))))

  pub create_failure_message : P → Message P
  unfolding outcome_message
  create_failure_message empty = outcome_message (failure_reply empty) failure empty

  pub create_success_message : P → Message P
  unfolding outcome_message
  create_success_message empty = outcome_message (success_reply empty) success empty

-- `JSON.parse(undefined)` reads the text "undefined".
abbrev pub state_text : Option Text → Text
state_text none = codes "undefined"
state_text (some state) = state

module _ {D P : Type 0} where
  -- `if (actions.updatedState)`: an empty text is as good as none.
  unfoldable pub update_state : SagaInstance D → SagaActions P → SagaInstance D
  update_state inst actions = elim actions.updated_state [
    | none ↦ inst
    | some [] ↦ inst
    | some (c ∷ state) ↦ record inst {
      state_name = c ∷ state;
      end_state = actions.end_state;
      compensating = actions.compensating;
    }
  ]

-- A reply that tells of a lock adds the resource to those to be unlocked at the end.
note_lock : {D P : Type 0} → SagaInstance D → Message P → Result (SagaInstance D)
note_lock inst m =
    if get_header reply_locked m == ""
    then ok inst
    else then_result (in_reply command_destination) (λ header.
      then_result (get_required_header header m) (λ destination. ok (record inst {
        destinations_and_resources =
            inst.destinations_and_resources
            ++ record { destination = destination; resource = get_header reply_locked m } ∷ [];
      })))

-- The headers of a command of a saga, and of the command that unlocks a resource for it.
unfoldable pub saga_headers : String → Option String → MessageHeaders
saga_headers saga_type saga_id =
    set saga_id_header (id_text saga_id) (set saga_type_header saga_type [])

unfoldable pub unlock_headers : String → Option String → MessageHeaders
unlock_headers saga_type saga_id =
    set saga_type_header saga_type (set saga_id_header (id_text saga_id) [])

-- `new SagaUnlockCommand()`.
abbrev pub saga_unlock_command : {P : Type 0} → P → Instance P
saga_unlock_command empty = record { constructor_name = "SagaUnlockCommand"; plain_form = empty }

module _ {S D P : Type 0} where
  -- `SagaCommandProducer.sendCommands`: the identifier of the last message. The extra headers of a
  -- command are not read.
  pub send_commands :
      SagaManager S D P
      → Option String
      → Option String
      → List (CommandWithDestination P)
      → M S (Option String)
  send_commands g saga_id last [] = pure last
  send_commands g saga_id last (c ∷ cs) = do
    m ←
        send_command g.producer c.channel c.command (concat g.saga.saga_type "-reply")
          (saga_headers g.saga.saga_type saga_id) c.resource
    last' ← lift (id m)
    send_commands g saga_id (some last') cs

  unlock_resource : SagaManager S D P → Option String → DestinationAndResource → M S (Unit {0})
  unlock_resource g saga_id dr =
      send_command g.producer dr.destination (saga_unlock_command g.empty_payload)
        (concat g.saga.saga_type "-reply") (unlock_headers g.saga.saga_type saga_id)
        (some dr.resource)
      >> pure tt

  pub perform_end_state_actions : SagaManager S D P → SagaInstance D → Bool → D → M S D
  perform_end_state_actions g inst compensating d =
      for_each (unlock_resource g inst.saga_id) inst.destinations_and_resources
      >> (if compensating
          then run_hook g.saga.on_saga_rolled_back (id_text inst.saga_id) d
          else run_hook g.saga.on_saga_completed_successfully (id_text inst.saga_id) d)

  get_saga_definition : SagaManager S D P → M S (List (SagaStep D P))
  get_saga_definition g = elim g.saga.saga_definition [
    | none ↦ throw state_machine_empty
    | some steps ↦ pure steps
  ]

  pub definition_reply : SagaManager S D P → Text → Message P → D → M S (SagaActions P × D)
  unfolding get_saga_definition
  definition_reply g state m d =
      get_saga_definition g >>= λ steps. on_data (handle_reply g.parse_reply steps state m) d

  -- What a round does with actions without a local exception: the commands go out, the instance is
  -- brought up to date, and the end of the saga is announced before the instance is saved.
  pub apply_actions :
      SagaManager S D P → SagaInstance D → D → SagaActions P → M S (SagaInstance D × D)
  apply_actions g inst d actions = do
    last ← send_commands g inst.saga_id none actions.commands
    let inst' = update_state (record inst { last_request_id = last }) actions
    d' ←
        if actions.end_state
        then perform_end_state_actions g inst' actions.compensating d
        else pure d
    g.repository.update_instance (record inst' { saga_data = d' })
    pure (record inst' { saga_data = d' }, d')

  -- The loop `while (true)`, with fuel: a round that ends with a local step, or with its exception,
  -- asks the definition again. `out` is what the loop does that is out of rounds.
  pub process_actions_or :
      (SagaInstance D → D → SagaActions P → M S (SagaInstance D))
      → ℕ
      → SagaManager S D P
      → SagaInstance D
      → D
      → SagaActions P
      → M S (SagaInstance D)
  process_actions_or out zero g inst d actions = out inst d actions
  process_actions_or out (suc rounds) g inst d actions = elim actions.local_exception [
    | some e ↦
        definition_reply g (state_text actions.updated_state)
          (create_failure_message g.empty_payload) d
        >>= λ next. process_actions_or out rounds g inst next.1 next.0
    | none ↦ apply_actions g inst d actions >>= λ applied.
        if actions.is_local
        then (definition_reply g (state_text actions.updated_state)
              (create_success_message g.empty_payload) applied.1
            >>= λ next. process_actions_or out rounds g applied.0 next.1 next.0)
        else pure applied.0
  ]

  pub process_actions :
      ℕ → SagaManager S D P → SagaInstance D → D → SagaActions P → M S (SagaInstance D)
  unfolding process_actions_or
  process_actions rounds g inst d actions =
      process_actions_or (λ i e a. throw error) rounds g inst d actions

  pub create : ℕ → SagaManager S D P → D → Target → Target → M S (SagaInstance D)
  create rounds g d target target_id = do
    inst ← g.repository.save_instance (record {
      saga_type = g.saga.saga_type;
      saga_id = none;
      state_name = codes "????";
      last_request_id = none;
      saga_data_type = g.data_type d;
      saga_data = d;
      destinations_and_resources = [];
      end_state = false;
      compensating = false;
    })
    d₁ ← run_hook g.saga.on_starting (id_text inst.saga_id) d
    let resource = lock_target target target_id
    claimed ←
        if resource == ""
        then pure true
        else g.locks.claim_lock g.saga.saga_type (id_text inst.saga_id) resource
    if claimed then pure tt else throw cannot_claim_resource_lock
    steps ← get_saga_definition g
    first ← on_data (start steps) d₁
    elim first.0.local_exception [
      | some e ↦ throw e
      | none ↦ process_actions rounds g inst first.1 first.0
    ]

  pub is_reply_for_this_saga_type : SagaManager S D P → Message P → Bool
  is_reply_for_this_saga_type g m = get_header reply_saga_type m == g.saga.saga_type

  resume_saga : ℕ → SagaManager S D P → Message P → Option (SagaInstance D) → M S (Unit {0})
  resume_saga rounds g m none = throw type_error
  resume_saga rounds g m (some found) = do
    inst ← lift (note_lock found m)
    next ← definition_reply g inst.state_name m inst.saga_data
    process_actions rounds g inst next.1 next.0
    pure tt

  pub handle_saga_reply : ℕ → SagaManager S D P → Message P → M S (Unit {0})
  unfolding resume_saga note_lock
  handle_saga_reply rounds g m =
      if is_reply_for_this_saga_type g m
      then (do
        saga_id ← lift (get_required_header reply_saga_id m)
        saga_type ← lift (get_required_header reply_saga_type m)
        found ← g.repository.find_instance saga_type saga_id
        resume_saga rounds g m found)
      else pure tt

  pub handle_saga_message : ℕ → SagaManager S D P → Message P → M S (Unit {0})
  handle_saga_message rounds g m =
      lift (to_string m)
      >> (if has_header reply_saga_id m then handle_saga_reply rounds g m else lift (to_string m))
