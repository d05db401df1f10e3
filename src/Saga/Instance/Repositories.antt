-- ===== src/Saga/Instance/Repositories.antt =====
-- packages/sagas/orchestration/saga-instance-repository.ts: the map of the class
-- `SagaInstanceRepository`.
use nest_convoy.Prelude.{String, ◌≡◌, Option, none, List}
use Prim.Native.String.{◌++◌ as concat}
use nest_convoy.Prelude.Result.{ok}
use nest_convoy.Prelude.Effect.{M, ◌>>◌, pure}
use nest_convoy.Prelude.Dict.{lookup, insert, string_key}
use nest_convoy.Saga.Instance.{SagaInstance, SagaInstanceRepository, id_text}

-- `${sagaType}-${sagaId}`.
abbrev pub store_key : String → String → String
store_key saga_type saga_id = concat saga_type (concat "-" saga_id)

-- The `Map` by its entries.
abbrev pub Store : Type 0 → Type 0
Store D = List (String × SagaInstance D)

module _ {D : Type 0} where
  pub memory_find : String → String → M (Store D) (Option (SagaInstance D))
  memory_find saga_type saga_id st = (ok (lookup (store_key saga_type saga_id) st), st)

  pub memory_save : SagaInstance D → M (Store D) (SagaInstance D)
  memory_save i st = (ok i, insert (store_key i.saga_type (id_text i.saga_id)) i st)

  pub memory_update : SagaInstance D → M (Store D) (Unit {0})
  memory_update i = memory_save i >> pure tt

  abbrev pub memory_repository : SagaInstanceRepository (Store D) D
  memory_repository = record {
    find_instance = memory_find;
    save_instance = memory_save;
    update_instance = memory_update;
  }

  -- A saga of the type `type` that is saved for the first time.
  abbrev pub IsNew : String → SagaInstance D → Type 0
  IsNew type i = (i.saga_type ≡ type) × (i.saga_id ≡ none)
