-- ===== src/Messaging/Tests.antt =====
-- Runs of packages/messaging on small messages.
use nest_convoy.Prelude.{◌≡◌, refl, [], ◌∷◌, some, ℕ}
use nest_convoy.Prelude.Result.{err}
use nest_convoy.Common.Exceptions.{range_error}
use nest_convoy.Messaging.Headers.{get}
use nest_convoy.Messaging.Message.{
  Message, plain, get_header, required_header_at, get_required_header, id_header,
}
use nest_convoy.Messaging.Message.Laws.{required_header_at_lem}
use nest_convoy.Prelude.{arith}
use nest_convoy.Messaging.Kafka.{
  TopicPartitionOffsets, no_offsets, includes, note_unprocessed, note_processed, to_commit,
  note_committed,
}
use nest_convoy.Messaging.Kafka.Offsets.{to_commit_passes_over}

abbrev untyped : Message ℕ
untyped = plain 7 ((id_header, "m1") ∷ [])

untyped_overflows : required_header_at 4 "reply_type" untyped ≡ err range_error
unfolding required_header_at get_header get
untyped_overflows = refl

required_header_at_lem_example :
    required_header_at 6 "reply_type" untyped ≡ get_required_header "reply_type" untyped
required_header_at_lem_example = required_header_at_lem 4 "reply_type" untyped

abbrev two_offsets : TopicPartitionOffsets
two_offsets = record { unprocessed = 4 ∷ 5 ∷ []; processed = 5 ∷ [] }

two_offsets_commit : to_commit two_offsets ≡ some 5
unfolding to_commit includes
two_offsets_commit = refl

to_commit_passes_over_example :
    (to_commit (note_processed 5 (note_unprocessed 5 (note_unprocessed 4 no_offsets))) ≡ some 5)
    × (note_committed 6 (note_processed 5 (note_unprocessed 5 (note_unprocessed 4 no_offsets)))
        ≡ no_offsets)
to_commit_passes_over_example = to_commit_passes_over 4 5 (omega arith)
