-- ===== src/Messaging/Kafka/Offsets.antt =====
-- The offsets of packages/messaging/broker/kafka/topic-partition-offsets.ts and their tracker.
use nest_convoy.Prelude.{
  ℕ, zero, suc, ◌+◌, ◌<◌, ◌≤◌, ◌≡◌, refl, sym, ap, ◌∙◌, String, Bool, true, false, none, some, List,
  [], ◌∷◌, ◌++◌, if◌then◌else◌, ◌==◌, ◌&&◌, nat_eq, leb, find, All, arith, Bool-cases, inl, inr,
}
use text.Mathlib.TextEquality.{eq_iff}
use nest_convoy.Messaging.Kafka.{
  TopicPartitionOffsets, no_offsets, includes, note_unprocessed, note_processed, to_commit,
  note_committed, Tracker, Partitions, put_partition, get_partition, put_state, get_state,
}

abbrev pub Unnoted : TopicPartitionOffsets → List ℕ → Type 0
Unnoted t = All (λ x. includes x t.processed ≡ false)

-- The first of the unprocessed offsets that was processed is offered: those before it are not.
find-first :
    (p : ℕ → Bool) (xs : List ℕ) (x : ℕ)
    → find p xs ≡ some x
    → (before : List ℕ) × (after : List ℕ) × (xs ≡ before ++ (x ∷ after))
      × (p x ≡ true)
      × All (λ y. p y ≡ false) before
find-first p [] x h = absurd (no_value h)
  where
    no_value : none ≡ some x → ⊥
    no_value q = cc
find-first p (y ∷ xs) x h = elim (Bool-cases (p y)) [
  | inl yes_y ↦
      let same : y ≡ x = some_inj (rw yes_y at h) in
      ([], xs, ap (λ z. z ∷ xs) same, ap p (sym same) ∙ yes_y, tt)
  | inr no_y ↦
      let (before, after, e, px, all) = find-first p xs x (rw no_y at h) in
      (y ∷ before, after, ap (λ l. y ∷ l) e, px, (no_y, all))
]
  where
    some_inj : some y ≡ some x → y ≡ x
    some_inj q = cc

-- The offset that is offered for a commit was processed, and it is the earliest noted one that was:
-- the offsets noted before it have not been processed.
pub to_commit_lem :
    (t : TopicPartitionOffsets) (x : ℕ)
    → to_commit t ≡ some x
    → (before : List ℕ) × (after : List ℕ) × (t.unprocessed ≡ before ++ (x ∷ after))
      × (includes x t.processed ≡ true)
      × Unnoted t before
unfolding to_commit
to_commit_lem t x h = find-first (λ y. includes y t.processed) t.unprocessed x h

-- Of two offsets that are noted in their order, of which only the later one has been processed, the
-- later one is offered. Where it is larger its commit removes both: the earlier message, never
-- processed, is not kept.
pub to_commit_passes_over :
    (a b : ℕ)
    → a < b
    → (to_commit (note_processed b (note_unprocessed b (note_unprocessed a no_offsets))) ≡ some b)
      × (note_committed
            (b + 1)
            (note_processed b (note_unprocessed b (note_unprocessed a no_offsets)))
          ≡ no_offsets)
unfolding to_commit note_processed note_unprocessed note_committed includes
to_commit_passes_over a b h = (ground arith, rw (below a (omega arith), below b (omega arith)) refl)
  where
    below : (x : ℕ) → x ≤ b → leb (b + 1) x ≡ false
    below x le = ground arith

put_partition_lem :
    (n n' : ℕ) (t : TopicPartitionOffsets) (ps : Partitions)
    → get_partition n (put_partition n' t ps) ≡ (if nat_eq n' n then some t else get_partition n ps)
unfolding get_partition put_partition
put_partition_lem zero zero t [] = refl
put_partition_lem zero zero t (p ∷ ps) = refl
put_partition_lem (suc n) zero t [] = ground arith
put_partition_lem (suc n) zero t (p ∷ ps) = ground arith
put_partition_lem zero (suc n') t [] = ground arith
put_partition_lem zero (suc n') t (p ∷ ps) = ground arith
put_partition_lem (suc n) (suc n') t [] = ground (arith, put_partition_lem n n' t [])
put_partition_lem (suc n) (suc n') t (p ∷ ps) = ground (arith, put_partition_lem n n' t ps)

-- The offsets of a partition of a topic are its own: what is put in one is found there, and no
-- other partition or topic sees it.
pub get_state-put_state :
    (topic topic' : String) (n n' : ℕ) (t : TopicPartitionOffsets) (k : Tracker)
    → get_state topic n (put_state topic' n' t k)
      ≡ (if (topic' == topic) && nat_eq n' n then some t else get_state topic n k)
unfolding get_state put_state
get_state-put_state topic topic' n n' t [] = elim (Bool-cases (topic' == topic)) [
  | inl same ↦ rw same (put_partition_lem n n' t [] ∙ nothing)
  | inr other ↦ rw other refl
]
  where
    nothing :
        (if nat_eq n' n then some t else get_partition n [])
        ≡ (if nat_eq n' n then some t else none)
    nothing = unfold get_partition in refl
get_state-put_state topic topic' n n' t ((j, ps) ∷ k) = elim (Bool-cases (j == topic')) [
  | inl same ↦
      rw (same, (eq_iff j topic').0 same)
        (elim (Bool-cases (topic' == topic)) [
          | inl here ↦ rw here (put_partition_lem n n' t ps)
          | inr other ↦ rw other refl
        ])
  | inr apart ↦ rw apart (elim (Bool-cases (j == topic)) [
    | inl here ↦ rw (here, elsewhere apart here) refl
    | inr other ↦ rw other (get_state-put_state topic topic' n n' t k)
  ])
]
  where
    elsewhere : (j == topic') ≡ false → (j == topic) ≡ true → (topic' == topic) ≡ false
    elsewhere apart here = ground (arith, eq_iff j topic, eq_iff j topic', eq_iff topic' topic)
