-- ===== src/Events/Tests/Deliveries.antt =====
-- Triggers of snapshots, hashes and domain events at concrete inputs.
use nest_convoy.Prelude.{
  nat_eq, ◌++◌, ◌+◌, if◌then◌else◌, ◌+◌, nat_eq, if◌then◌else◌, ◌++◌, ◌≡◌, refl, ℕ, String, codes,
  true, false, some, List, [], ◌∷◌, ◌<◌, ◌≤◌, map,
}
use Prim.Native.Nat.{◌%◌}
use nest_convoy.Prelude.Int.{negsuc, pos_part, neg_part}
use nest_convoy.Prelude.Result.{ok, err}
use nest_convoy.Prelude.Effect.{modify, throw, ◌>>◌, modify, pure}
use nest_convoy.Common.Exceptions.{error, missing_apply_method, duplicate_triggering_event}
use nest_convoy.Common.Hash.{
  hash_code, hash_from, hash_step, to_int32, shift_left_5, to_uint32, signed, remainder,
  partition_of, partition_of-bounds,
}
use nest_convoy.Events.Snapshot.Context.{DecodedEtpoContext, event_token}
use nest_convoy.Events.Snapshot.{
  TopicPartitionOffsets, create, serialize, check_snapshot_for_duplicate_event,
}
use nest_convoy.Events.Snapshot.Laws.{
  check_snapshot_for_duplicate_event-any_covers, any_covers, covered_by,
}
use nest_convoy.Prelude.Dict.{list_beq, option_beq}
use nest_convoy.Events.Snapshot.Serialize.{check-serialize-create}
use nest_convoy.Events.Domain.{handle_event_message}
use nest_convoy.Events.Domain.Handlers.{DomainEventHandler}
use nest_convoy.Events.Domain.Delivery.{published, published_event_is_handled}
use nest_convoy.Events.Aggregates.{
  AggregateMethods, default_strategy, apply_events, apply_events_drops,
}

abbrev trigger : ℕ → DecodedEtpoContext
trigger n = record { context_id = codes "a"; topic = codes "T"; partition = some 1; offset = n }

check_snapshot_for_duplicate_event-any_covers_example :
    check_snapshot_for_duplicate_event
      (some (map event_token (trigger 4 ∷ trigger 9 ∷ [])))
      (event_token (trigger 7))
    ≡ err duplicate_triggering_event
unfolding any_covers covered_by list_beq option_beq
check_snapshot_for_duplicate_event-any_covers_example =
    check_snapshot_for_duplicate_event-any_covers (trigger 4 ∷ trigger 9 ∷ []) (trigger 7)
      (((refl, tt), (refl, tt)), (((refl, tt), (refl, tt)), tt)) ((refl, tt), (refl, tt))

check-serialize-create_example :
    (s : TopicPartitionOffsets) × (create
        (map event_token (trigger 6 ∷ []))
        (some (event_token (trigger 5)))
        (some (map event_token (trigger 9 ∷ [])))
      ≡ ok s)
    × (check_snapshot_for_duplicate_event (some (serialize s)) (event_token (trigger 7))
        ≡ err duplicate_triggering_event)
unfolding any_covers covered_by list_beq option_beq
check-serialize-create_example =
    check-serialize-create (trigger 9 ∷ []) (trigger 6 ∷ []) (trigger 5) (trigger 7)
      (((refl, tt), (refl, tt)), tt) (((refl, tt), (refl, tt)), tt) ((refl, tt), (refl, tt))
      ((refl, tt), (refl, tt))

negative_partition : partition_of (codes "order-1") ≡ negsuc 5
unfolding partition_of hash_code hash_from hash_step to_int32 shift_left_5 to_uint32 signed
    remainder
negative_partition = refl

partition_of-bounds_example :
    (pos_part (hash_code (codes "order-1")) < 2147483648)
    × (neg_part (hash_code (codes "order-1")) ≤ 2147483648)
    × (pos_part (partition_of (codes "order-1")) ≡ pos_part (hash_code (codes "order-1")) % 8)
    × (neg_part (partition_of (codes "order-1")) ≡ neg_part (hash_code (codes "order-1")) % 8)
    × (pos_part (partition_of (codes "order-1")) < 8)
    × (neg_part (partition_of (codes "order-1")) < 8)
partition_of-bounds_example = partition_of-bounds (codes "order-1")

-- A handler that keeps the identifiers of its aggregates.
abbrev created_handler : DomainEventHandler (List String) ℕ
created_handler = record {
  event_name = "OrderCreated";
  invoke = λ dee seen. (ok tt, dee.envelope_id ∷ seen);
  handler_type = "Order";
}

published_event_is_handled_example :
    handle_event_message
      (λ name p. ok p)
      (created_handler ∷ [])
      (published [] "m1" "Order" "today" "Order" "17" []
        (record { constructor_name = "OrderCreated"; plain_form = 3 }))
      []
    ≡ (ok tt, "17" ∷ [])
published_event_is_handled_example =
    published_event_is_handled (λ name p. ok p) (created_handler ∷ []) [] "m1" "Order" "today"
      "Order" "17" [] (record { constructor_name = "OrderCreated"; plain_form = 3 }) refl refl refl
      refl []

-- An aggregate whose class has no `applyEvent`.
abbrev no_methods : AggregateMethods ℕ ℕ ℕ
no_methods = record { has_apply_event = λ a. false; apply_event = λ a e. pure a }

missing_apply_run :
    apply_events no_methods default_strategy 5 (8 ∷ []) 0 ≡ (err missing_apply_method, 0)
unfolding apply_events
missing_apply_run = refl

-- One whose method throws for the event 8, and changes the state before it does.
abbrev picky : AggregateMethods ℕ ℕ ℕ
picky = record {
  has_apply_event = λ a. true;
  apply_event = λ a e. if nat_eq e 8 then modify (λ s. s + 1) >> throw error else pure (a + e);
}

picky_before : apply_events picky default_strategy 5 (1 ∷ []) 0 ≡ (ok 6, 0)
unfolding apply_events
picky_before = refl

apply_events_drops_example :
    apply_events picky default_strategy 5 ((1 ∷ []) ++ (8 ∷ 2 ∷ [])) 0
    ≡ apply_events picky default_strategy 6 (2 ∷ []) 1
apply_events_drops_example =
    apply_events_drops picky default_strategy (1 ∷ []) (2 ∷ []) 8 5 0 picky_before refl refl refl
