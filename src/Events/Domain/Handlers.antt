-- ===== src/Events/Domain/Handlers.antt =====
-- packages/events: common/event-message-headers.ts, subscriber/domain-event-handler.ts and
-- domain-event-handlers.ts, with the search of packages/common/handlers.ts. What a handler does is a
-- parameter.
use nest_convoy.Prelude.{
  String, Bool, false, Option, none, some, List, [], ◌∷◌, if◌then◌else◌, ◌==◌,
}
use nest_convoy.Prelude.Result.{Result, ok, ◌>>=◌}
use nest_convoy.Prelude.Effect.{M}
use nest_convoy.Messaging.Message.{Message, get_header, get_required_header}

abbrev pub event_type : String
event_type = "event_type"

abbrev pub aggregate_type : String
aggregate_type = "event_aggregate_type"

abbrev pub aggregate_id : String
aggregate_id = "event_aggregate_id"

abbrev pub partition_id : String
partition_id = "PARTITION_ID"

pub record DomainEventEnvelope (P : Type 0) : Type 0 where
  pub message : Message P
  pub envelope_type : String
  pub envelope_id : String
  pub event_id : String
  pub event : P

pub record DomainEventHandler (W P : Type 0) : Type 0 where
  pub event_name : String
  pub invoke : DomainEventEnvelope P → M W (Unit {0})
  pub handler_type : String

module _ {W P : Type 0} where
  -- A text that the aggregate's type does not match is not looked at further.
  unfoldable pub handles_event : DomainEventHandler W P → Message P → Result Bool
  handles_event handler m =
      if handler.handler_type == get_header aggregate_type m
      then get_required_header event_type m >>= (λ name. ok (handler.event_name == name))
      else ok false

  unfoldable pub find_event_handler :
      List (DomainEventHandler W P) → Message P → Result (Option (DomainEventHandler W P))
  find_event_handler [] m = ok none
  find_event_handler (handler ∷ handlers) m = handles_event handler m >>= λ taken.
      if taken then ok (some handler) else find_event_handler handlers m
