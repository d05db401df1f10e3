-- ===== src/Saga/Instance/Database/Tests.antt =====
-- A table of one instance, which is the state.
use nest_convoy.Prelude.{codes, refl, ◌≡◌, ℕ, none, some, [], true, false, List}
use nest_convoy.Prelude.Result.{ok}
use nest_convoy.Prelude.Effect.{pure, ◌>>◌}
use nest_convoy.Saga.Instance.{SagaInstance, DestinationAndResource}
use nest_convoy.Saga.Instance.Database.{
  InstanceTables, SagaInstanceEntity, RowTables, database_update, database_find,
  database_find-database_update,
}

abbrev saved : SagaInstanceEntity ℕ
saved = record {
  state_name = codes "{}";
  last_request_id = none;
  saga_data_type = "Order";
  saga_data = 7;
  end_state = false;
  compensating = false;
}

abbrev tables : InstanceTables (SagaInstanceEntity ℕ) ℕ
tables = record {
  find_participants = λ t i. pure [];
  find_row = λ t i s. (ok (some s), s);
  save_row = λ i s. (ok ("1", s), s);
  update_row = λ t i row s. (ok tt, row);
  create_participants = λ ps. pure tt;
}

rows : RowTables tables
rows = record {
  row_at = λ t i s. some s;
  update_writes = λ t i old row s stored. (row, refl, refl);
  create_keeps = λ t i ps s. (s, refl, refl);
  participants_keep = λ t i s. ([], s, refl, refl);
  row_finds = λ t i s. refl;
}

-- It turned round, and is not at its end.
abbrev turned : SagaInstance ℕ
turned = record {
  saga_type = "CreateOrder";
  saga_id = some "1";
  state_name = codes "{}";
  last_request_id = some "m4";
  saga_data_type = "Order";
  saga_data = 8;
  destinations_and_resources = [];
  end_state = false;
  compensating = true;
}

database_find-database_update_example :
    (drs : List DestinationAndResource) × (s : SagaInstanceEntity ℕ) × ((database_update tables
            turned
          >> database_find tables "CreateOrder" "1")
        saved
      ≡ (
        ok (record turned {
          destinations_and_resources = drs;
          end_state = true;
          compensating = false;
        }),
        s,
      ))
unfolding rows
database_find-database_update_example =
    database_find-database_update tables rows turned "1" saved saved refl refl
