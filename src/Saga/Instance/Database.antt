-- ===== src/Saga/Instance/Database.antt =====
-- packages/sagas/orchestration/saga-instance-repository.ts: `SagaDatabaseInstanceRepository` over the
-- tables of the object mapper, whose methods are parameters.
pub mod Tests
use nest_convoy.Prelude.{
  subst, Text, String, ◌≡◌, refl, ap, ◌∙◌, sym, Bool, Option, none, some, List, [], ◌∷◌, map,
}
use nest_convoy.Prelude.Result.{Result, ok}
use nest_convoy.Prelude.Effect.{M, ◌>>=◌, ◌>>◌, pure, throw, >>=-step}
use nest_convoy.Common.Exceptions.{runtime}
use nest_convoy.Saga.Instance.{SagaInstance, DestinationAndResource, SagaInstanceRepository}

-- A row of the table of instances.
pub record SagaInstanceEntity (D : Type 0) : Type 0 where
  pub state_name : Text
  pub last_request_id : Option String
  pub saga_data_type : String
  pub saga_data : D
  pub end_state : Bool
  pub compensating : Bool

pub record SagaInstanceParticipantsEntity : Type 0 where
  pub participant_saga_type : String
  pub participant_saga_id : Option String
  pub participant : DestinationAndResource

-- `save_row` gives the identifier and the row that `save` answers with; `create_participants` is
-- `manager.create` of each in a transaction.
pub record InstanceTables (S D : Type 0) : Type 0 where
  pub find_participants : String → String → M S (List DestinationAndResource)
  pub find_row : String → String → M S (Option (SagaInstanceEntity D))
  pub save_row : SagaInstance D → M S (String × SagaInstanceEntity D)
  pub update_row : String → Option String → SagaInstanceEntity D → M S (Unit {0})
  pub create_participants : List SagaInstanceParticipantsEntity → M S (Unit {0})

module _ {D : Type 0} where
  -- The last two arguments of the constructor are `endState` and `compensating`; the row's come in
  -- the other order.
  unfoldable instance_of :
      String → String → List DestinationAndResource → SagaInstanceEntity D → SagaInstance D
  instance_of saga_type saga_id participants row = record {
    saga_type = saga_type;
    saga_id = some saga_id;
    state_name = row.state_name;
    last_request_id = row.last_request_id;
    saga_data_type = row.saga_data_type;
    saga_data = row.saga_data;
    destinations_and_resources = participants;
    end_state = row.compensating;
    compensating = row.end_state;
  }

  or_missing :
      {S : Type 0}
      → String
      → String
      → List DestinationAndResource
      → Option (SagaInstanceEntity D)
      → M S (SagaInstance D)
  or_missing saga_type saga_id participants none = throw runtime
  or_missing saga_type saga_id participants (some row) =
      pure (instance_of saga_type saga_id participants row)

  unfoldable pub database_find :
      {S : Type 0} → InstanceTables S D → String → String → M S (SagaInstance D)
  unfolding or_missing instance_of
  database_find tables saga_type saga_id =
      tables.find_participants saga_type saga_id >>= λ participants.
      tables.find_row saga_type saga_id >>= or_missing saga_type saga_id participants

  abbrev row_of_instance : SagaInstance D → SagaInstanceEntity D
  row_of_instance i = record {
    state_name = i.state_name;
    last_request_id = i.last_request_id;
    saga_data_type = i.saga_data_type;
    saga_data = i.saga_data;
    end_state = i.end_state;
    compensating = i.compensating;
  }

  abbrev participants_of : SagaInstance D → List SagaInstanceParticipantsEntity
  participants_of i =
      map
        (λ dr. record {
          participant_saga_type = i.saga_type;
          participant_saga_id = i.saga_id;
          participant = dr;
        })
        i.destinations_and_resources

  -- `Object.assign(sagaInstance, entity)`.
  abbrev assigned : SagaInstance D → String × SagaInstanceEntity D → SagaInstance D
  assigned i (id, row) = record i {
    saga_id = some id;
    state_name = row.state_name;
    last_request_id = row.last_request_id;
    saga_data_type = row.saga_data_type;
    saga_data = row.saga_data;
    end_state = row.end_state;
    compensating = row.compensating;
  }

  unfoldable pub database_save :
      {S : Type 0} → InstanceTables S D → SagaInstance D → M S (SagaInstance D)
  database_save tables i = do
    entity ← tables.save_row i
    tables.create_participants (participants_of i)
    pure (assigned i entity)

  unfoldable pub database_update :
      {S : Type 0} → InstanceTables S D → SagaInstance D → M S (Unit {0})
  database_update tables i =
      tables.update_row i.saga_type i.saga_id (row_of_instance i)
      >> tables.create_participants (participants_of i)

  -- `find` throws where there is no instance, and never answers `undefined`.
  abbrev pub database_repository : {S : Type 0} → InstanceTables S D → SagaInstanceRepository S D
  database_repository tables = record {
    find_instance = λ type id. database_find tables type id >>= λ i. pure (some i);
    save_instance = database_save tables;
    update_instance = database_update tables;
  }

-- Tables that keep their rows: an update of a row that is there writes it, and the table of
-- participants has nothing to do with it.
pub record RowTables {S D : Type 0} (tables : InstanceTables S D) : Type 0 where
  pub row_at : String → String → S → Option (SagaInstanceEntity D)
  pub update_writes :
      (t i : String) (old row : SagaInstanceEntity D) (s : S)
      → row_at t i s ≡ some old
      → (s' : S) × (tables.update_row t (some i) row s ≡ (ok tt, s')) × (row_at t i s' ≡ some row)
  pub create_keeps :
      (t i : String) (ps : List SagaInstanceParticipantsEntity) (s : S)
      → (s' : S) × (tables.create_participants ps s ≡ (ok tt, s')) × (row_at t i s' ≡ row_at t i s)
  pub participants_keep :
      (t i : String) (s : S)
      → (drs : List DestinationAndResource) × (s' : S) × (tables.find_participants t i s
          ≡ (ok drs, s'))
        × (row_at t i s' ≡ row_at t i s)
  pub row_finds : (t i : String) (s : S) → tables.find_row t i s ≡ (ok (row_at t i s), s)

module _ {S D : Type 0} (tables : InstanceTables S D) (rows : RowTables tables) where
  -- A saga is not loaded as it was saved. Over tables that keep their rows, an instance that is
  -- written over a row that is there, and read again, has the participants that the table gives and
  -- all else that it had, but for two things: it compensates if it had ended, and it has ended if it
  -- compensated.
  pub database_find-database_update :
      (i : SagaInstance D) (id : String) (old : SagaInstanceEntity D) (s : S)
      → i.saga_id ≡ some id
      → rows.row_at i.saga_type id s ≡ some old
      → (drs : List DestinationAndResource) × (s' : S) × ((database_update tables i
              >> database_find tables i.saga_type id)
            s
          ≡ (
            ok (record i {
              saga_id = some id;
              destinations_and_resources = drs;
              end_state = i.compensating;
              compensating = i.end_state;
            }),
            s',
          ))
  unfolding database_update database_find or_missing instance_of
  database_find-database_update i id old s known stored =
      let updated = rows.update_writes i.saga_type id old (row_of_instance i) s stored in
      let created = rows.create_keeps i.saga_type id (participants_of i) updated.0 in
      let loaded = rows.participants_keep i.saga_type id created.0 in
      let row : rows.row_at i.saga_type id loaded.1 ≡ some (row_of_instance i) =
        loaded.3 ∙ created.2 ∙ updated.2 in
      let written =
        subst (λ k. tables.update_row i.saga_type k (row_of_instance i) s ≡ (ok tt, updated.0))
          (sym known) updated.1 in
      (
        loaded.0,
        loaded.1,
        >>=-step (database_update tables i) _ s created.0 (ok tt) (
              >>=-step (tables.update_row i.saga_type i.saga_id (row_of_instance i)) _ s updated.0
                (ok tt) written
              ∙ created.1)
            ∙ rw (loaded.2, rows.row_finds i.saga_type id loaded.1, row) refl,
      )
