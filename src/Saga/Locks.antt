-- ===== src/Saga/Locks.antt =====
-- packages/sagas/common/saga-lock-manager.ts and the tables saga_lock and saga_stash. What the
-- repositories of the object mapper do to the tables is a parameter.
pub mod Exclusion
pub mod Tests
use nest_convoy.Prelude.{
  ℕ, zero, suc, String, Bool, true, false, Option, none, some, ◌==◌, if◌then◌else◌,
}
use nest_convoy.Prelude.Result.{Result, ok, err}
use nest_convoy.Prelude.Effect.{M, ◌>>=◌, ◌>>◌, pure, throw, lift, try_catch}
use nest_convoy.Common.Exceptions.{error, runtime}
use nest_convoy.Messaging.Headers.{MessageHeaders}
use nest_convoy.Messaging.Message.{Message, id, plain}

pub record SagaLock : Type 0 where
  pub target : String
  pub saga_type : String
  pub saga_id : String

pub record SagaStash (P : Type 0) : Type 0 where
  pub message_payload : P
  pub message_headers : MessageHeaders
  pub message_id : String
  pub stash_saga_type : String
  pub stash_saga_id : String
  pub stash_target : String

-- `Repository<SagaLockEntity>`; `locked_saga_id` is the query of `getLockedSagaIdByTarget`.
pub record LockRepository (S : Type 0) : Type 0 where
  pub create_lock : SagaLock → M S (Unit {0})
  pub locked_saga_id : String → M S (Option String)
  pub update_lock : String → String → String → M S (Unit {0})
  pub delete_lock : String → M S (Unit {0})

-- `Repository<SagaStashEntity>`.
pub record StashRepository (S P : Type 0) : Type 0 where
  pub create_stash : SagaStash P → M S (Unit {0})
  pub find_stash : String → M S (Option (SagaStash P))
  pub delete_stash : String → M S (Unit {0})

pub record SagaLockManager (S P : Type 0) : Type 0 where
  pub claim_lock : String → String → String → M S Bool
  pub stash_message : String → String → String → Message P → M S (Unit {0})
  pub unlock : String → String → M S (Option (Message P))

-- The class `SagaLockManager`: no lock is kept.
abbrev pub no_locks : {S P : Type 0} → SagaLockManager S P
no_locks = record {
  claim_lock = λ type id target. pure true;
  stash_message = λ type id target m. pure tt;
  unlock = λ id target. pure none;
}

module _ {S P : Type 0} (locks : LockRepository S) (stash : StashRepository S P) where
  -- The answer where the lock has an owner; where it has none the loop goes round again.
  owned_by : String → Option String → M S Bool → M S Bool
  owned_by saga_id none again = again
  owned_by saga_id (some owner) again = if owner == "" then again else pure (owner == saga_id)

  -- `while (true)`, with fuel: a round is another attempt to create the lock.
  pub database_claim_lock : ℕ → String → String → String → M S Bool
  database_claim_lock zero saga_type saga_id target = throw error
  database_claim_lock (suc rounds) saga_type saga_id target =
      try_catch
        (locks.create_lock (record { target = target; saga_type = saga_type; saga_id = saga_id })
          >> pure true)
        (λ e. locks.locked_saga_id target >>= λ owner.
          owned_by saga_id owner (database_claim_lock rounds saga_type saga_id target))

  pub database_stash_message : String → String → String → Message P → M S (Unit {0})
  database_stash_message saga_type saga_id target m = do
    message_id ← lift (id m)
    stash.create_stash (record {
      message_payload = m.payload;
      message_headers = m.headers;
      message_id = message_id;
      stash_saga_type = saga_type;
      stash_saga_id = saga_id;
      stash_target = target;
    })

  -- The lock goes to the saga of a stashed message, which is returned, or away.
  pass_on : String → Option (SagaStash P) → M S (Option (Message P))
  pass_on target none = locks.delete_lock target >> pure none
  pass_on target (some entry) = do
    locks.update_lock target entry.stash_saga_type entry.stash_saga_id
    stash.delete_stash entry.message_id
    pure (some (plain entry.message_payload entry.message_headers))

  unlock_owned : String → String → Option String → M S (Option (Message P))
  unlock_owned saga_id target none = throw runtime
  unlock_owned saga_id target (some owner) =
      if owner == ""
      then throw runtime
      else if owner == saga_id
      then (stash.find_stash target >>= pass_on target)
      else throw runtime

  pub database_unlock : String → String → M S (Option (Message P))
  unfolding unlock_owned pass_on
  database_unlock saga_id target = locks.locked_saga_id target >>= unlock_owned saga_id target

  -- The class `SagaDatabaseLockManager`.
  abbrev pub database_locks : ℕ → SagaLockManager S P
  database_locks rounds = record {
    claim_lock = database_claim_lock rounds;
    stash_message = database_stash_message;
    unlock = database_unlock;
  }
