-- ===== src/Saga/Locks/Tests.antt =====
-- Runs of packages/sagas/common/saga-lock-manager.ts on tables that are kept in memory.
use nest_convoy.Prelude.{List, ◌∷◌, [], ℕ, String, refl, Option, none, some, if◌then◌else◌, ◌==◌}
use text.Mathlib.TextPositions.{eq_refl}
use nest_convoy.Prelude.Result.{ok}
use nest_convoy.Prelude.Effect.{pure}
use nest_convoy.Saga.Locks.{SagaStash, LockRepository, StashRepository}
use nest_convoy.Saga.Locks.Exclusion.{LockTables, EntitiesOnly, LockCall, to_claim}

abbrev Owners : Type 0
Owners = String → Option String

abbrev locks : LockRepository Owners
locks = record {
  create_lock = λ l. pure tt;
  locked_saga_id = λ t st. (ok (st t), st);
  update_lock = λ t type id st. (ok tt, λ k. if t == k then some id else st k);
  delete_lock = λ t st. (ok tt, λ k. if t == k then none else st k);
}

abbrev waiting : SagaStash ℕ
waiting = record {
  message_payload = 5;
  message_headers = [];
  message_id = "m2";
  stash_saga_type = "Order";
  stash_saga_id = "2";
  stash_target = "orders/7";
}

abbrev stash : StashRepository Owners ℕ
stash = record {
  create_stash = λ entry. pure tt;
  find_stash = λ t. pure (some waiting);
  delete_stash = λ id. pure tt;
}

abbrev tables : LockTables locks stash
tables = record {
  owner = λ st t. st t;
  stashed = λ st t. some waiting;
  locked_saga_id_lem = λ t st. refl;
  find_stash_lem = λ t st. refl;
  update_lock_lem =
      λ t type id o st own. (λ k. if t == k then some id else st k, refl, rw (eq_refl t) refl);
  delete_lock_lem = λ t st. (λ k. if t == k then none else st k, refl, rw (eq_refl t) refl);
  delete_stash_lem = λ id t st. (st, refl, refl);
}

abbrev entities : EntitiesOnly locks stash
entities = record { create_lock_lem = λ l st. refl; create_stash_lem = λ entry st. refl }

abbrev first_saga : String
first_saga = "1"

abbrev no_owners : Owners
no_owners k = none

abbrev two_claims : List (LockCall ℕ)
two_claims = to_claim 0 "Order" "1" "orders/7" ∷ to_claim 0 "Order" "2" "orders/7" ∷ []

abbrev held : Owners
held k = some "1"
