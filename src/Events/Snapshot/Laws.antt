-- ===== src/Events/Snapshot/Laws.antt =====
-- packages/events/aggregate/snapshot: tokens are read back as they were written, and the check for
-- duplicates against a plain search of the events.
use nest_convoy.Prelude.{
  subst, Text, ℕ, ◌≡◌, refl, ◌∙◌, ap, sym, Bool, true, false, ◌&&◌, ◌||◌, List, [], ◌∷◌, ◌++◌,
  if◌then◌else◌, Option, none, some, leb, ltb, map, arith, All, Bool-cases, inl, inr, Option-cases,
}
use nest_convoy.Prelude.Dict.{lookup, lookup-insert, list_key, option_key, nat_key}
use nest_convoy.Prelude.Numbers.{
  print_nat, read_nat, is_digit, print_nat_head, read-print_nat_alone, print_nat-All,
}
use nest_convoy.Prelude.Split.{split_on, strip_prefix, Without, split_on-part, split_on-last}
use nest_convoy.Prelude.Result.{ok, err, ◌>>=◌}
use nest_convoy.Common.Exceptions.{duplicate_triggering_event}
use nest_convoy.Events.Snapshot.Context.{
  DecodedEtpoContext, decode, decode_parts, event_token, parse_int, big_int, print_partition,
  prefix,
}
use nest_convoy.Events.Snapshot.{
  partition_offset, note, PartitionOffsets, TopicPartitionOffsets, add_context, add_event,
  add_events, max_offset, check_for_duplicate_event, check_snapshot_for_duplicate_event,
}

-- A number holds no colon.
digits-Without : (s : Text) → All (λ c. is_digit c ≡ true) s → Without b':' s
digits-Without [] h = tt
digits-Without (c ∷ s) (d, h) = (ground arith, digits-Without s h)

print_partition-Without : (p : Option ℕ) → Without b':' (print_partition p)
unfolding print_partition
print_partition-Without none = (refl, (refl, (refl, tt)))
print_partition-Without (some n) = digits-Without (print_nat n []) (print_nat-All n)

pub parse_int-print_partition : (p : Option ℕ) → parse_int (print_partition p) ≡ p
unfolding print_partition parse_int
parse_int-print_partition none = refl
parse_int-print_partition (some n) = go (print_nat_head n [])
  where
    go :
        (c : ℕ) × (s : Text) × (print_nat n [] ≡ c ∷ s) × (is_digit c ≡ true)
        → parse_int (print_nat n []) ≡ some n
    go (c, s, e, d) =
        subst (λ t. parse_int t ≡ some (read_nat 0 t).0) (sym e) (rw d refl)
        ∙ ap (λ (r : ℕ × Text). some r.0) (read-print_nat_alone n)

pub big_int-print_nat : (n : ℕ) → big_int (print_nat n []) ≡ ok n
unfolding big_int
big_int-print_nat n = rw (read-print_nat_alone n) refl

-- A context whose parts can be told apart: no colon stands in its identifier or its topic.
abbrev pub IsPlain : DecodedEtpoContext → Type 0
IsPlain d = Without b':' d.context_id × Without b':' d.topic

decode-prefix :
    (rest : Text)
    → decode (prefix ++ rest) ≡ (decode_parts (split_on b':' rest) >>= λ d. ok (some d))
unfolding decode strip_prefix
decode-prefix rest = refl

-- The four parts of a token.
abbrev token_rest : DecodedEtpoContext → Text
token_rest d =
    d.context_id
    ++ (b':'
        ∷ (d.topic ++ (b':' ∷ (print_partition d.partition ++ (b':' ∷ print_nat d.offset [])))))

split_on-token_rest :
    (d : DecodedEtpoContext)
    → IsPlain d
    → split_on b':' (token_rest d)
      ≡ d.context_id ∷ d.topic ∷ print_partition d.partition ∷ print_nat d.offset [] ∷ []
split_on-token_rest d (plain_id, plain_topic) =
    split_on-part b':' d.context_id _ plain_id
    ∙ ap (λ ps. d.context_id ∷ ps) (split_on-part b':' d.topic _ plain_topic)
    ∙ ap (λ ps. d.context_id ∷ d.topic ∷ ps)
        (split_on-part b':' (print_partition d.partition) _ (print_partition-Without d.partition))
    ∙ ap (λ ps. d.context_id ∷ d.topic ∷ print_partition d.partition ∷ ps)
        (split_on-last b':' (print_nat d.offset []) (digits-Without _ (print_nat-All d.offset)))

-- A token is read back as the context that it was made of, of whatever partition and offset, where
-- its identifier and topic hold no colon.
pub decode-event_token : (d : DecodedEtpoContext) → IsPlain d → decode (event_token d) ≡ ok (some d)
unfolding event_token decode_parts
decode-event_token d plain =
    decode-prefix (token_rest d)
    ∙ rw (split_on-token_rest d plain)
        (rw (big_int-print_nat d.offset, parse_int-print_partition d.partition) refl)

abbrev pub add_contexts : List DecodedEtpoContext → TopicPartitionOffsets → TopicPartitionOffsets
add_contexts [] s = s
add_contexts (d ∷ ds) s = add_contexts ds (add_context d s)

pub add_event-event_token :
    (d : DecodedEtpoContext) (s : TopicPartitionOffsets)
    → IsPlain d
    → add_event (event_token d) s ≡ ok (add_context d s)
unfolding add_event
add_event-event_token d s p = rw (decode-event_token d p) refl

pub add_events-event_token :
    (ds : List DecodedEtpoContext) (s : TopicPartitionOffsets)
    → All IsPlain ds
    → add_events (map event_token ds) s ≡ ok (add_contexts ds s)
unfolding add_events
add_events-event_token [] s plain = refl
add_events-event_token (d ∷ ds) s (p, plain) =
    rw (add_event-event_token d s p) (add_events-event_token ds (add_context d s) plain)

-- An event is covered by another one of its topic and partition whose offset is not lower.
unfoldable pub covered_by : DecodedEtpoContext → DecodedEtpoContext → Bool
covered_by d x =
    list_key.beq x.topic d.topic && option_key.beq x.partition d.partition && leb d.offset x.offset

unfoldable pub any_covers : DecodedEtpoContext → List DecodedEtpoContext → Bool
any_covers d [] = false
any_covers d (x ∷ xs) = covered_by d x || any_covers d xs

-- The answer of the check.
abbrev pub reached : Option ℕ → ℕ → Bool
reached none o = false
reached (some m) o = leb o m

reached-note :
    (d : DecodedEtpoContext) (x : DecodedEtpoContext) (o : Option PartitionOffsets)
    → reached (lookup d.partition (note x o)) d.offset ≡ (
        option_key.beq x.partition d.partition && leb d.offset x.offset
        || reached (partition_offset d.partition o) d.offset)
reached-note d x none = unfold lookup in ground arith
reached-note d x (some pos) = elim (Option-cases (lookup x.partition pos)) [
  | inl fresh ↦
      rw (fresh, lookup-insert d.partition x.partition x.offset pos)
        (elim (Bool-cases (option_key.beq x.partition d.partition)) [
          | inl same ↦
              rw (same, ← (option_key.beq_iff x.partition d.partition).0 same, fresh) (ground arith)
          | inr other ↦ rw other refl
        ])
  | inr (m, known) ↦ elim (Bool-cases (ltb m x.offset)) [
    | inl higher ↦
        rw (known, higher, lookup-insert d.partition x.partition x.offset pos)
          (elim (Bool-cases (option_key.beq x.partition d.partition)) [
            | inl same ↦
                rw (same, ← (option_key.beq_iff x.partition d.partition).0 same, known)
                  (ground arith)
            | inr other ↦ rw other refl
          ])
    | inr lower ↦
        rw (known, lower)
          (elim (Bool-cases (option_key.beq x.partition d.partition)) [
            | inl same ↦
                rw (same, ← (option_key.beq_iff x.partition d.partition).0 same, known)
                  (ground arith)
            | inr other ↦ rw other refl
          ])
  ]
]

reached-add_context :
    (d x : DecodedEtpoContext) (s : TopicPartitionOffsets)
    → reached (max_offset d (add_context x s)) d.offset
      ≡ (covered_by d x || reached (max_offset d s) d.offset)
unfolding max_offset add_context covered_by
reached-add_context d x s =
    rw (lookup-insert d.topic x.topic (note x (lookup x.topic s)) s)
      (elim (Bool-cases (list_key.beq x.topic d.topic)) [
        | inl same ↦
            rw (same, ← (list_key.beq_iff x.topic d.topic).0 same)
              (reached-note d x (lookup x.topic s))
        | inr other ↦ rw other refl
      ])

pub reached-add_contexts :
    (d : DecodedEtpoContext) (ds : List DecodedEtpoContext) (s : TopicPartitionOffsets)
    → reached (max_offset d (add_contexts ds s)) d.offset
      ≡ (any_covers d ds || reached (max_offset d s) d.offset)
unfolding any_covers
reached-add_contexts d [] s = refl
reached-add_contexts d (x ∷ ds) s =
    ground (arith, reached-add_contexts d ds (add_context x s), reached-add_context d x s)

pub max_offset-nil : (d : DecodedEtpoContext) → max_offset d [] ≡ none
unfolding max_offset lookup
max_offset-nil d = refl

pub check_lem :
    (d : DecodedEtpoContext) (s : TopicPartitionOffsets)
    → check_for_duplicate_event d s
      ≡ (if reached (max_offset d s) d.offset then err duplicate_triggering_event else ok tt)
unfolding check_for_duplicate_event
check_lem d s = elim (Option-cases (max_offset d s)) [
  | inl no_offset ↦ rw (check_for_duplicate_event, no_offset) refl
  | inr (m, known) ↦ rw (check_for_duplicate_event, known) refl
]

-- An event is refused as a duplicate exactly if the snapshot before was triggered by an event of
-- its topic and partition whose offset is not lower, in whatever order the triggers are noted. The
-- tokens are those of contexts whose identifiers and topics hold no colon.
pub check_snapshot_for_duplicate_event-any_covers :
    (ds : List DecodedEtpoContext) (d : DecodedEtpoContext)
    → All IsPlain ds
    → IsPlain d
    → check_snapshot_for_duplicate_event (some (map event_token ds)) (event_token d)
      ≡ (if any_covers d ds then err duplicate_triggering_event else ok tt)
unfolding check_snapshot_for_duplicate_event
check_snapshot_for_duplicate_event-any_covers ds d plain p =
    rw
      (
        decode-event_token d p,
        add_events-event_token ds [] plain,
        check_lem d (add_contexts ds []),
        reached-add_contexts d ds [],
        max_offset-nil d,
      )
      (ground arith)
