-- ===== src/Messaging/Kafka/Consumer/Tracking.antt =====
-- Changes of the tracker of packages/messaging/broker/kafka, one partition at a time.
use text.Mathlib.TextEquality.{eq_iff}
use nest_convoy.Prelude.{
  sym, Option, Option-cases, Bool-cases, inl, inr, ◌==◌, ℕ, zero, suc, ◌+◌, String, none, some,
  List, [], ◌∷◌, ◌++◌, ◌≡◌, refl, ap, ◌∙◌, All, arith, leb, filter,
}
use text.Mathlib.TextPositions.{eq_refl}
use nest_convoy.Prelude.Dict.{string_key}
use nest_convoy.Messaging.Kafka.{
  TopicPartitionOffset, Partitions, TopicPartitionOffsets, Tracker, no_offsets, includes, to_commit,
  note_committed, put_partition, get_partition, put_state, get_state, update_state,
  partition_commits, offsets_to_commit,
}

get-put_partition :
    (n : ℕ) (t : TopicPartitionOffsets) (ps : Partitions)
    → get_partition n (put_partition n t ps) ≡ some t
unfolding get_partition put_partition
get-put_partition zero t [] = refl
get-put_partition zero t (p ∷ ps) = refl
get-put_partition (suc n) t [] = get-put_partition n t []
get-put_partition (suc n) t (p ∷ ps) = get-put_partition n t ps

put-put_partition :
    (n : ℕ) (t u : TopicPartitionOffsets) (ps : Partitions)
    → put_partition n t (put_partition n u ps) ≡ put_partition n t ps
unfolding put_partition
put-put_partition zero t u [] = refl
put-put_partition zero t u (p ∷ ps) = refl
put-put_partition (suc n) t u [] = ap (λ qs. none ∷ qs) (put-put_partition n t u [])
put-put_partition (suc n) t u (p ∷ ps) = ap (λ qs. p ∷ qs) (put-put_partition n t u ps)

get-put_state :
    (topic : String) (n : ℕ) (t : TopicPartitionOffsets) (k : Tracker)
    → get_state topic n (put_state topic n t k) ≡ some t
unfolding get_state put_state
get-put_state topic n t [] = rw (eq_refl topic) (get-put_partition n t [])
get-put_state topic n t ((j, ps) ∷ k) = elim (Bool-cases (j == topic)) [
  | inl same ↦ rw (same, same) (get-put_partition n t ps)
  | inr other ↦ rw (other, other) (get-put_state topic n t k)
]

put-put_state :
    (topic : String) (n : ℕ) (t u : TopicPartitionOffsets) (k : Tracker)
    → put_state topic n t (put_state topic n u k) ≡ put_state topic n t k
unfolding put_state
put-put_state topic n t u [] = rw (eq_refl topic, put-put_partition n t u []) refl
put-put_state topic n t u ((j, ps) ∷ k) = elim (Bool-cases (j == topic)) [
  | inl same ↦ rw (same, same, put-put_partition n t u ps) refl
  | inr other ↦ rw (other, other, put-put_state topic n t u k) refl
]

-- Two changes of the offsets of one partition.
pub update-put_state :
    (f : TopicPartitionOffsets → TopicPartitionOffsets) (topic : String) (n : ℕ)
    (t : TopicPartitionOffsets) (k : Tracker)
    → update_state f topic n (put_state topic n t k) ≡ put_state topic n (f t) k
unfolding update_state
update-put_state f topic n t k =
    rw (get-put_state topic n t k, put-put_state topic n (f t) t k) refl

append-nothing : (xs ys : List TopicPartitionOffset) → xs ++ ys ≡ [] → (xs ≡ []) × (ys ≡ [])
append-nothing [] ys h = (refl, h)
append-nothing (x ∷ xs) ys h = absurd (clash h)
  where
    clash : x ∷ (xs ++ ys) ≡ [] → ⊥
    clash q = cc

abbrev offer : String → ℕ → ℕ → TopicPartitionOffset
offer topic i x = record { topic = topic; partition = i; offset = x + 1 }

partition_commits-quiet :
    (topic : String) (i : ℕ) (t : TopicPartitionOffsets) (ps : Partitions)
    → to_commit t ≡ none
    → partition_commits topic i (some t ∷ ps) ≡ partition_commits topic (suc i) ps
unfolding partition_commits
partition_commits-quiet topic i t ps h = rw (partition_commits, h) refl

partition_commits-offer :
    (topic : String) (i : ℕ) (t : TopicPartitionOffsets) (ps : Partitions) (x : ℕ)
    → to_commit t ≡ some x
    → partition_commits topic i (some t ∷ ps) ≡ offer topic i x ∷ partition_commits topic (suc i) ps
unfolding partition_commits
partition_commits-offer topic i t ps x h = rw (partition_commits, h) refl

partition_commits-none :
    (topic : String) (i : ℕ) (ps : Partitions)
    → partition_commits topic i (none ∷ ps) ≡ partition_commits topic (suc i) ps
unfolding partition_commits
partition_commits-none topic i ps = refl

partition_commits-nil : (topic : String) (i : ℕ) → partition_commits topic i [] ≡ []
unfolding partition_commits
partition_commits-nil topic i = refl

-- A partition that offers nothing is passed over, whatever is behind it.
partition_commits-tail :
    (topic : String) (i : ℕ) (o : Option TopicPartitionOffsets) (ps : Partitions)
    → partition_commits topic i (o ∷ ps) ≡ []
    → ((qs : Partitions) → partition_commits topic i (o ∷ qs) ≡ partition_commits topic (suc i) qs)
      × (partition_commits topic (suc i) ps ≡ [])
partition_commits-tail topic i none ps h =
    (partition_commits-none topic i, sym (partition_commits-none topic i ps) ∙ h)
partition_commits-tail topic i (some t) ps h = elim (Option-cases (to_commit t)) [
  | inl nothing ↦ (
    λ qs. partition_commits-quiet topic i t qs nothing,
    sym (partition_commits-quiet topic i t ps nothing) ∙ h,
  )
  | inr (x, offered) ↦ absurd (clash _ _ (sym (partition_commits-offer topic i t ps x offered) ∙ h))
]
  where
    clash : (o : TopicPartitionOffset) (os : List TopicPartitionOffset) → o ∷ os ≡ [] → ⊥
    clash o os q = cc

offer-eq :
    (topic : String) (a b x : ℕ)
    → a ≡ b
    → ◌≡◌ {A = List TopicPartitionOffset} (offer topic a x ∷ []) (offer topic b x ∷ [])
offer-eq topic a b x e = ap (λ (c : ℕ). offer topic c x ∷ []) e

offer-alone :
    (topic : String) (i : ℕ) (t : TopicPartitionOffsets) (ps : Partitions) (x : ℕ)
    → to_commit t ≡ some x
    → partition_commits topic (suc i) ps ≡ []
    → partition_commits topic i (some t ∷ ps) ≡ offer topic (i + 0) x ∷ []
offer-alone topic i t ps x h rest =
    partition_commits-offer topic i t ps x h
    ∙ ap (λ os. offer topic i x ∷ os) rest
    ∙ offer-eq topic i (i + 0) x (omega arith)

partition_commits-put :
    (topic : String) (i n : ℕ) (t : TopicPartitionOffsets) (x : ℕ) (ps : Partitions)
    → partition_commits topic i ps ≡ []
    → to_commit t ≡ some x
    → partition_commits topic i (put_partition n t ps) ≡ offer topic (i + n) x ∷ []
unfolding put_partition
partition_commits-put topic i zero t x [] quiet h =
    offer-alone topic i t [] x h (partition_commits-nil topic (suc i))
partition_commits-put topic i zero t x (p ∷ ps) quiet h =
    offer-alone topic i t ps x h (partition_commits-tail topic i p ps quiet).1
partition_commits-put topic i (suc n) t x [] quiet h =
    partition_commits-none topic i (put_partition n t [])
    ∙ partition_commits-put topic (suc i) n t x [] (partition_commits-nil topic (suc i)) h
    ∙ offer-eq topic (suc i + n) (i + suc n) x (omega arith)
partition_commits-put topic i (suc n) t x (p ∷ ps) quiet h =
    let (passes, rest) = partition_commits-tail topic i p ps quiet in
    passes (put_partition n t ps)
    ∙ partition_commits-put topic (suc i) n t x ps rest h
    ∙ offer-eq topic (suc i + n) (i + suc n) x (omega arith)

-- A tracker that offers nothing else offers the one offset that is noted as processed.
pub commits-put_state :
    (topic : String) (n : ℕ) (t : TopicPartitionOffsets) (x : ℕ) (k : Tracker)
    → offsets_to_commit k ≡ []
    → to_commit t ≡ some x
    → offsets_to_commit (put_state topic n t k)
      ≡ record { topic = topic; partition = n; offset = x + 1 } ∷ []
unfolding offsets_to_commit put_state
commits-put_state topic n t x [] quiet h =
    ap (λ os. os ++ []) (partition_commits-put topic 0 n t x [] (partition_commits-nil topic 0) h)
    ∙ offer-eq topic (0 + n) n x (omega arith)
commits-put_state topic n t x ((j, ps) ∷ k) quiet h =
    let (here, rest) = append-nothing (partition_commits j 0 ps) (offsets_to_commit k) quiet in
    elim (Bool-cases (j == topic)) [
      | inl same ↦
          rw (same, partition_commits-put j 0 n t x ps here h, rest, (eq_iff j topic).0 same)
            (offer-eq topic (0 + n) n x (omega arith))
      | inr other ↦ rw (other, here) (commits-put_state topic n t x k rest h)
    ]

-- The deliveries of one offset that have not been processed.
abbrev pub Repeats : ℕ → List ℕ → Type 0
Repeats offset = All (λ x. x ≡ offset)

Repeats-append : (x : ℕ) (xs : List ℕ) → Repeats x xs → Repeats x (xs ++ x ∷ [])
Repeats-append x [] h = (refl, tt)
Repeats-append x (y ∷ ys) (e, h) = (e, Repeats-append x ys h)

pub to_commit-Repeats :
    (x : ℕ) (xs : List ℕ)
    → Repeats x xs
    → to_commit (record { unprocessed = xs ++ x ∷ []; processed = x ∷ [] }) ≡ some x
unfolding to_commit includes
to_commit-Repeats x [] h = ground arith
to_commit-Repeats x (y ∷ ys) (e, h) = ground arith

filter-Repeats : (x : ℕ) (xs : List ℕ) → Repeats x xs → filter (λ y. leb (x + 1) y) xs ≡ []
filter-Repeats x [] h = refl
filter-Repeats x (y ∷ ys) (e, h) = ground (arith, filter-Repeats x ys h)

pub committed-Repeats :
    (x : ℕ) (xs : List ℕ)
    → Repeats x xs
    → note_committed (x + 1) (record { unprocessed = xs ++ x ∷ []; processed = x ∷ [] })
      ≡ no_offsets
unfolding note_committed
committed-Repeats x xs h =
    rw
      (
        filter-Repeats x (xs ++ x ∷ []) (Repeats-append x xs h),
        filter-Repeats x (x ∷ []) (refl, tt),
      )
      refl
