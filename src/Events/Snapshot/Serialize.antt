-- ===== src/Events/Snapshot/Serialize.antt =====
-- packages/events/aggregate/snapshot/snapshot-triggering-events.ts: what a snapshot knows of its
-- triggers after it was serialised.
use nest_convoy.Prelude.{
  subst, Text, codes, ℕ, ◌≡◌, refl, ◌∙◌, ap, true, ◌&&◌, ◌||◌, List, [], ◌∷◌, ◌++◌, if◌then◌else◌,
  Option, none, some, ltb, map, filter, arith, All, Bool-cases, inl, inr,
}
use nest_convoy.Prelude.Dict.{
  lookup, list_key, option_key, nat_key, Absent, Distinct, lookup_of_Absent, insert-Distinct,
  insert-All, lookup-nil, lookup-cons,
}
use nest_convoy.Prelude.Split.{strip_prefix, Without}
use nest_convoy.Prelude.Result.{ok, err}
use nest_convoy.Common.Exceptions.{duplicate_triggering_event}
use nest_convoy.Events.Snapshot.Context.{DecodedEtpoContext, event_token, is_etpo_event}
use nest_convoy.Events.Snapshot.{
  TopicPartitionOffsets, PartitionOffsets, add_context, max_offset, note, raise, create, serialize,
  serialize_offsets, check_snapshot_for_duplicate_event,
}
use nest_convoy.Events.Snapshot.Laws.{
  max_offset-nil, add_event-event_token, IsPlain, add_contexts, any_covers, covered_by, reached,
  add_events-event_token, reached-add_contexts, check_snapshot_for_duplicate_event-any_covers,
}

-- The contexts that a map of offsets stands for.
abbrev entry : Text → Option ℕ → ℕ → DecodedEtpoContext
entry t p o = record { context_id = codes "????"; topic = t; partition = p; offset = o }

abbrev entries_of : Text → PartitionOffsets → List DecodedEtpoContext
entries_of t [] = []
entries_of t ((p, o) ∷ pos) = entry t p o ∷ entries_of t pos

abbrev entries : TopicPartitionOffsets → List DecodedEtpoContext
entries [] = []
entries ((t, pos) ∷ s) = entries_of t pos ++ entries s

map-append :
    (xs ys : List DecodedEtpoContext)
    → map event_token (xs ++ ys) ≡ map event_token xs ++ map event_token ys
map-append [] ys = refl
map-append (x ∷ xs) ys = ap (λ l. event_token x ∷ l) (map-append xs ys)

serialize_offsets-entries_of :
    (t : Text) (pos : PartitionOffsets)
    → serialize_offsets t pos ≡ map event_token (entries_of t pos)
serialize_offsets-entries_of t [] = refl
serialize_offsets-entries_of t ((p, o) ∷ pos) =
    ap (λ l. event_token (entry t p o) ∷ l) (serialize_offsets-entries_of t pos)

serialize-entries : (s : TopicPartitionOffsets) → serialize s ≡ map event_token (entries s)
unfolding serialize
serialize-entries [] = refl
serialize-entries ((t, pos) ∷ s) =
    rw
      (
        serialize_offsets-entries_of t pos,
        serialize-entries s,
        map-append (entries_of t pos) (entries s),
      )
      refl

any_covers-append :
    (d : DecodedEtpoContext) (xs ys : List DecodedEtpoContext)
    → any_covers d (xs ++ ys) ≡ (any_covers d xs || any_covers d ys)
unfolding any_covers
any_covers-append d [] ys = refl
any_covers-append d (x ∷ xs) ys = ground (arith, any_covers-append d xs ys)

-- A map with distinct keys on both of its levels, whose topics hold no colon.
abbrev pub IsTopic : Text × PartitionOffsets → Type 0
IsTopic (t, pos) = Without b':' t × Distinct pos

abbrev pub IsOffsets : TopicPartitionOffsets → Type 0
IsOffsets s = Distinct s × All IsTopic s

entries_of-IsPlain :
    (t : Text) (pos : PartitionOffsets) → Without b':' t → All IsPlain (entries_of t pos)
entries_of-IsPlain t [] w = tt
entries_of-IsPlain t ((p, o) ∷ pos) w =
    (((refl, (refl, (refl, (refl, tt)))), w), entries_of-IsPlain t pos w)

IsPlain-append :
    (xs ys : List DecodedEtpoContext) → All IsPlain xs → All IsPlain ys → All IsPlain (xs ++ ys)
IsPlain-append [] ys h k = k
IsPlain-append (x ∷ xs) ys (p, h) k = (p, IsPlain-append xs ys h k)

entries-IsPlain : (s : TopicPartitionOffsets) → All IsTopic s → All IsPlain (entries s)
entries-IsPlain [] h = tt
entries-IsPlain ((t, pos) ∷ s) ((w, m), h) =
    IsPlain-append (entries_of t pos) (entries s) (entries_of-IsPlain t pos w) (entries-IsPlain s h)

any_covers-entries_of :
    (d : DecodedEtpoContext) (t : Text) (pos : PartitionOffsets)
    → Distinct pos
    → any_covers d (entries_of t pos)
      ≡ (list_key.beq t d.topic && reached (lookup d.partition pos) d.offset)
unfolding any_covers covered_by
any_covers-entries_of d t [] m = rw (lookup-nil {V = ℕ} d.partition [] refl) (ground arith)
any_covers-entries_of d t ((p, o) ∷ pos) (a, m) =
    rw (lookup-cons d.partition p o pos, any_covers-entries_of d t pos m)
      (elim (Bool-cases (option_key.beq p d.partition)) [
        | inl same ↦
            let absent : lookup d.partition pos ≡ none =
              lookup_of_Absent d.partition pos
                (subst (λ q. Absent q pos) ((option_key.beq_iff p d.partition).0 same) a) in
            rw (same, absent) (ground arith)
        | inr other ↦ rw other (ground arith)
      ])

any_covers-entries :
    (d : DecodedEtpoContext) (s : TopicPartitionOffsets)
    → IsOffsets s
    → any_covers d (entries s) ≡ reached (max_offset d s) d.offset
unfolding max_offset any_covers
any_covers-entries d [] m = rw (lookup-nil {V = PartitionOffsets} d.topic [] refl) refl
any_covers-entries d ((t, pos) ∷ s) ((a, m), ((w, n), h)) =
    rw
      (
        any_covers-append d (entries_of t pos) (entries s),
        any_covers-entries_of d t pos n,
        lookup-cons d.topic t pos s,
        any_covers-entries d s (m, h),
      )
      (elim (Bool-cases (list_key.beq t d.topic)) [
        | inl same ↦
            let absent : lookup d.topic s ≡ none =
              lookup_of_Absent d.topic s
                (subst (λ q. Absent q s) ((list_key.beq_iff t d.topic).0 same) a) in
            rw (same, absent) (ground arith)
        | inr other ↦ rw other refl
      ])

raise-Distinct :
    (p : Option ℕ) (o : ℕ) (pos : PartitionOffsets) (m : Option ℕ)
    → Distinct pos
    → Distinct (raise p o pos m)
raise-Distinct p o pos none h = insert-Distinct p o pos h
raise-Distinct p o pos (some m) h = elim (Bool-cases (ltb m o)) [
  | inl higher ↦ rw higher (insert-Distinct p o pos h)
  | inr lower ↦ rw lower h
]

note-Distinct :
    (d : DecodedEtpoContext) (t : Text) (s : TopicPartitionOffsets)
    → All IsTopic s
    → Distinct (note d (lookup t s))
note-Distinct d t [] h = rw (lookup-nil {V = PartitionOffsets} t [] refl) (tt, tt)
note-Distinct d t ((k, pos) ∷ s) ((w, m), h) =
    rw (lookup-cons t k pos s) (elim (Bool-cases (list_key.beq k t)) [
      | inl same ↦ rw same (raise-Distinct d.partition d.offset pos (lookup d.partition pos) m)
      | inr other ↦ rw other (note-Distinct d t s h)
    ])

add_context-IsOffsets :
    (d : DecodedEtpoContext) (s : TopicPartitionOffsets)
    → IsPlain d
    → IsOffsets s
    → IsOffsets (add_context d s)
unfolding add_context
add_context-IsOffsets d s (plain_id, plain_topic) (m, h) =
    let pos = note d (lookup d.topic s) in
    (
      insert-Distinct d.topic pos s m,
      insert-All IsTopic d.topic pos s (plain_topic, note-Distinct d d.topic s h) h,
    )

add_contexts-IsOffsets :
    (ds : List DecodedEtpoContext) (s : TopicPartitionOffsets)
    → All IsPlain ds
    → IsOffsets s
    → IsOffsets (add_contexts ds s)
add_contexts-IsOffsets [] s plain h = h
add_contexts-IsOffsets (d ∷ ds) s (p, plain) h =
    add_contexts-IsOffsets ds (add_context d s) plain (add_context-IsOffsets d s p h)

is_etpo_event-event_token : (d : DecodedEtpoContext) → is_etpo_event (event_token d) ≡ true
unfolding is_etpo_event event_token strip_prefix
is_etpo_event-event_token d = refl

filter-event_token :
    (ds : List DecodedEtpoContext) → filter is_etpo_event (map event_token ds) ≡ map event_token ds
filter-event_token [] = refl
filter-event_token (d ∷ ds) = rw (is_etpo_event-event_token d, filter-event_token ds) refl

add_contexts-append :
    (xs ys : List DecodedEtpoContext) (s : TopicPartitionOffsets)
    → add_contexts (xs ++ ys) s ≡ add_contexts ys (add_contexts xs s)
add_contexts-append [] ys s = refl
add_contexts-append (x ∷ xs) ys s = add_contexts-append xs ys (add_context x s)

create-event_token :
    (before triggers : List DecodedEtpoContext) (context : DecodedEtpoContext)
    → All IsPlain before
    → All IsPlain triggers
    → IsPlain context
    → create (map event_token triggers) (some (event_token context)) (some (map event_token before))
      ≡ ok (add_contexts (before ++ (triggers ++ (context ∷ []))) [])
unfolding create
create-event_token before triggers context pb pt pc =
    rw
      (
        filter-event_token triggers,
        add_events-event_token before [] pb,
        add_events-event_token triggers (add_contexts before []) pt,
        is_etpo_event-event_token context,
        add_event-event_token context (add_contexts triggers (add_contexts before [])) pc,
        add_contexts-append before (triggers ++ (context ∷ [])) [],
        add_contexts-append triggers (context ∷ []) (add_contexts before []),
      )
      refl

check-serialize :
    (ds : List DecodedEtpoContext) (d : DecodedEtpoContext)
    → All IsPlain ds
    → IsPlain d
    → check_snapshot_for_duplicate_event (some (serialize (add_contexts ds []))) (event_token d)
      ≡ (if any_covers d ds then err duplicate_triggering_event else ok tt)
check-serialize ds d plain pd =
    let s = add_contexts ds [] in
    let h = add_contexts-IsOffsets ds [] plain (tt, tt) in
    rw (serialize-entries s) (
      check_snapshot_for_duplicate_event-any_covers (entries s) d (entries-IsPlain s h.1) pd
      ∙ rw (any_covers-entries d s h, reached-add_contexts d ds [], max_offset-nil d)
          (ground arith))

-- A new snapshot of the triggers of the events, of the context and of the snapshot before, is made
-- without an exception; and after it was serialised, the check refuses exactly the events that one
-- of all those triggers covers. Nothing is lost, and nothing is refused beyond that. The tokens are
-- those of contexts whose identifiers and topics hold no colon.
pub check-serialize-create :
    (before triggers : List DecodedEtpoContext) (context d : DecodedEtpoContext)
    → All IsPlain before
    → All IsPlain triggers
    → IsPlain context
    → IsPlain d
    → (s : TopicPartitionOffsets) × (create
          (map event_token triggers)
          (some (event_token context))
          (some (map event_token before))
        ≡ ok s)
      × (check_snapshot_for_duplicate_event (some (serialize s)) (event_token d) ≡ (
          if any_covers d (before ++ (triggers ++ (context ∷ [])))
          then err duplicate_triggering_event
          else ok tt))
check-serialize-create before triggers context d pb pt pc pd =
    let all = before ++ (triggers ++ (context ∷ [])) in
    (
      add_contexts all [],
      create-event_token before triggers context pb pt pc,
      check-serialize all d
          (IsPlain-append before (triggers ++ (context ∷ [])) pb
            (IsPlain-append triggers (context ∷ []) pt (pc, tt)))
          pd,
    )
