-- ===== src/Common/Exceptions.antt =====
-- packages/common/exceptions.ts, packages/messaging/common/exceptions.ts,
-- packages/commands/common/exceptions.ts, packages/sagas/common/exceptions.ts and
-- packages/events/aggregate/exceptions.ts. Message texts stand only where code reads them; a stack trace is no part of a value.
use Prim.Native.String.{String}
use Prim.Native.Nat.{ℕ}

pub data Exception : Type 0 where
  missing_message_header : String → Exception
  missing_required_message_id : Exception
  missing_command_handler : Exception
  stash_message_required : String → Exception
  state_machine_empty : Exception
  cannot_claim_lock : Exception
  cannot_claim_resource_lock : Exception
  missing_saga_manager : Exception
  missing_apply_method : Exception
  optimistic_locking : Exception
  duplicate_triggering_event : Exception
  entity_not_found : String → Exception
  command_processing_failed : Exception
  unsupported_operation : Exception
  unsupported_state_transition : Exception
  -- of the examples
  order_minimum_not_met : Exception
  order_not_found : ℕ → Exception
  ticket_not_found : ℕ → Exception
  customer_credit_limit_exceeded : Exception
  customer_not_found : ℕ → Exception
  illegal_argument : Exception
  runtime : Exception
  type_error : Exception
  -- a plain `Error`
  error : Exception
  -- `JSON.parse` of a text that is no JSON
  syntax_error : Exception
  -- the call stack of the engine is used up
  range_error : Exception
  -- what the code of an application, a broker or a database throws
  foreign : ℕ → Exception
