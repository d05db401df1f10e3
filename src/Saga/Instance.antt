-- ===== src/Saga/Instance.antt =====
-- packages/sagas/orchestration: saga-instance.ts, destination-and-resource.ts,
-- saga-instance-repository.ts and the tables of the folder entities.
pub mod Repositories
pub mod Database
use nest_convoy.Prelude.{Text, String, Bool, true, false, Option, none, some, List, []}
use nest_convoy.Prelude.Effect.{M}

pub record DestinationAndResource : Type 0 where
  pub destination : String
  pub resource : String

-- The identifier is `null` until a repository has given one.
pub record SagaInstance (D : Type 0) : Type 0 where
  pub saga_type : String
  pub saga_id : Option String
  pub state_name : Text
  pub last_request_id : Option String
  pub saga_data_type : String
  pub saga_data : D
  pub destinations_and_resources : List DestinationAndResource
  pub end_state : Bool
  pub compensating : Bool

-- `String(id)`, in a template literal or a header.
abbrev pub id_text : Option String → String
id_text none = "null"
id_text (some id) = id

-- What the manager asks of a repository. `find` may answer `undefined`.
pub record SagaInstanceRepository (S D : Type 0) : Type 0 where
  pub find_instance : String → String → M S (Option (SagaInstance D))
  pub save_instance : SagaInstance D → M S (SagaInstance D)
  pub update_instance : SagaInstance D → M S (Unit {0})
