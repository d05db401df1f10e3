-- ===== src/Saga/Locks/Exclusion.antt =====
-- packages/sagas/common/saga-lock-manager.ts over tables that change as the documentation of the
-- object mapper says.
use nest_convoy.Prelude.{ℕ, suc, String, ◌≡◌, true, Option, none, some}
use nest_convoy.Prelude.Result
use nest_convoy.Prelude.Result.{Result, ok}
use nest_convoy.Prelude.Effect.{◌>>=◌}
use nest_convoy.Messaging.Message.{Message, id, plain}
use nest_convoy.Saga.Locks.{
  SagaLock, SagaStash, LockRepository, StashRepository, database_claim_lock, database_stash_message,
}

-- What the object mapper documents of its repositories: a query reads the rows and changes nothing;
-- `update` changes the row that its condition names, if there is one, and `delete` takes it away.
pub record LockTables {S P : Type 0} (locks : LockRepository S) (stash : StashRepository S P)
    : Type 0 where
  pub owner : S → String → Option String
  pub stashed : S → String → Option (SagaStash P)
  pub locked_saga_id_lem : (t : String) (st : S) → locks.locked_saga_id t st ≡ (ok (owner st t), st)
  pub find_stash_lem : (t : String) (st : S) → stash.find_stash t st ≡ (ok (stashed st t), st)
  pub update_lock_lem :
      (t type id o : String) (st : S)
      → owner st t ≡ some o
      → (st' : S) × (locks.update_lock t type id st ≡ (ok tt, st')) × (owner st' t ≡ some id)
  pub delete_lock_lem :
      (t : String) (st : S)
      → (st' : S) × (locks.delete_lock t st ≡ (ok tt, st')) × (owner st' t ≡ none)
  pub delete_stash_lem :
      (id t : String) (st : S)
      → (st' : S) × (stash.delete_stash id st ≡ (ok tt, st')) × (owner st' t ≡ owner st t)

-- And of `create`: it makes an entity and writes nothing.
pub record EntitiesOnly {S P : Type 0} (locks : LockRepository S) (stash : StashRepository S P)
    : Type 0 where
  pub create_lock_lem : (l : SagaLock) (st : S) → locks.create_lock l st ≡ (ok tt, st)
  pub create_stash_lem : (entry : SagaStash P) (st : S) → stash.create_stash entry st ≡ (ok tt, st)

-- Who owns a target after its owner has unlocked it, and what is delivered.
abbrev pub owner_after_unlock : {P : Type 0} → Option (SagaStash P) → Option String
owner_after_unlock none = none
owner_after_unlock (some entry) = some entry.stash_saga_id

abbrev pub delivered : {P : Type 0} → Option (SagaStash P) → Option (Message P)
delivered none = none
delivered (some entry) = some (plain entry.message_payload entry.message_headers)

-- The calls of the lock manager that are meant to write: a claim, with its rounds but the first,
-- and the stashing of a message.
pub data LockCall (P : Type 0) : Type 0 where
  to_claim : ℕ → String → String → String → LockCall P
  to_stash : String → String → String → Message P → LockCall P

-- A claim was granted; a message was stashed, or had no identifier.
abbrev pub Accepts :
    {S P : Type 0} → LockRepository S → StashRepository S P → S → LockCall P → Type 0
Accepts locks stash st (to_claim rounds type saga target) =
    database_claim_lock locks stash (suc rounds) type saga target st ≡ (ok true, st)
Accepts locks stash st (to_stash type saga target m) =
    database_stash_message locks stash type saga target m st
    ≡ (Result.◌>>=◌ (id m) (λ message_id. ok tt), st)
