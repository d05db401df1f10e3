-- ===== src/Prelude/Dict.antt =====
-- A `Map` of the engine: its entries in the order of insertion, a key once. Keys are compared by an
-- interface, whose law the look-ups use.
use text.Mathlib.TextEquality.{eq_iff}
use nest_convoy.Prelude.{
  All, subst, ◌&&◌, ℕ, String, ◌==◌, ◌≡◌, refl, ◌↔◌, Bool, true, false, Option, none, some, List,
  [], ◌∷◌, if◌then◌else◌, nat_eq, arith, Bool-cases, inl, inr,
}

pub record Key {ℓ} (K : Type ℓ) : Type ℓ where
  pub beq : K → K → Bool
  pub beq_iff : (a b : K) → (beq a b ≡ true) ↔ (a ≡ b)

pub beq_refl {ℓ} : {K : Type ℓ} ⦃key : Key K⦄ (k : K) → key.beq k k ≡ true
beq_refl ⦃key⦄ k = (key.beq_iff k k).1 refl

module _ {ℓ κ} {K : Type ℓ} {V : Type κ} ⦃key : Key K⦄ where
  unfoldable pub lookup : K → List (K × V) → Option V
  lookup k [] = none
  lookup k ((j, v) ∷ d) = if key.beq j k then some v else lookup k d

  -- `Map.set`: a known key keeps its place.
  unfoldable pub insert : K → V → List (K × V) → List (K × V)
  insert k v [] = (k, v) ∷ []
  insert k v ((j, w) ∷ d) = if key.beq j k then (k, v) ∷ d else (j, w) ∷ insert k v d

  pub lookup-cons :
      (j k : K) (v : V) (d : List (K × V))
      → lookup j ((k, v) ∷ d) ≡ (if key.beq k j then some v else lookup j d)
  unfolding lookup
  lookup-cons j k v d = refl

  -- A look-up in a new map.
  pub lookup-nil : (j : K) (d : List (K × V)) → d ≡ [] → lookup j d ≡ none
  lookup-nil j d e = rw e (unfold lookup in refl)

  pub lookup-insert :
      (j k : K) (v : V) (d : List (K × V))
      → lookup j (insert k v d) ≡ (if key.beq k j then some v else lookup j d)
  unfolding lookup insert
  lookup-insert j k v [] = refl
  lookup-insert j k v ((i, w) ∷ d) =
      ground (arith, key.beq_iff k j, key.beq_iff i k, key.beq_iff i j, lookup-insert j k v d)

module _ {ℓ κ} {K : Type ℓ} {V : Type κ} ⦃key : Key K⦄ where
  -- Of two writes of a key the later one stays.
  pub insert-insert :
      (k : K) (v w : V) (d : List (K × V)) → insert k v (insert k w d) ≡ insert k v d
  unfolding insert
  insert-insert k v w [] = rw (beq_refl k) refl
  insert-insert k v w ((j, u) ∷ d) = elim (Bool-cases (key.beq j k)) [
    | inl same ↦ rw (same, beq_refl k) refl
    | inr other ↦ rw (other, other, insert-insert k v w d) refl
  ]

  pub lookup-insert_self : (k : K) (v : V) (d : List (K × V)) → lookup k (insert k v d) ≡ some v
  lookup-insert_self k v d = rw (lookup-insert k k v d, beq_refl k) refl

instance abbrev pub string_key : Key String
string_key = record { beq = λ a b. a == b; beq_iff = eq_iff }

pub nat_eq_iff : (a b : ℕ) → (nat_eq a b ≡ true) ↔ (a ≡ b)
nat_eq_iff a b = (λ e. ground arith, λ e. ground arith)

instance abbrev pub nat_key : Key ℕ
nat_key = record { beq = nat_eq; beq_iff = nat_eq_iff }

module _ {ℓ} {K : Type ℓ} ⦃key : Key K⦄ where
  unfoldable pub list_beq : List K → List K → Bool
  list_beq [] [] = true
  list_beq (a ∷ xs) (b ∷ ys) = key.beq a b && list_beq xs ys
  list_beq _ _ = false

  pub list_beq_iff : (xs ys : List K) → (list_beq xs ys ≡ true) ↔ (xs ≡ ys)
  unfolding list_beq
  list_beq_iff [] [] = (λ e. refl, λ e. refl)
  list_beq_iff [] (b ∷ ys) = (λ e. ground arith, λ e. ground arith)
  list_beq_iff (a ∷ xs) [] = (λ e. ground arith, λ e. ground arith)
  list_beq_iff (a ∷ xs) (b ∷ ys) = (
    λ e. ground (arith, key.beq_iff a b, list_beq_iff xs ys),
    λ e. ground (arith, key.beq_iff a b, list_beq_iff xs ys),
  )

  unfoldable pub option_beq : Option K → Option K → Bool
  option_beq none none = true
  option_beq (some a) (some b) = key.beq a b
  option_beq _ _ = false

  pub option_beq_iff : (a b : Option K) → (option_beq a b ≡ true) ↔ (a ≡ b)
  unfolding option_beq
  option_beq_iff none none = (λ e. refl, λ e. refl)
  option_beq_iff none (some b) = (λ e. ground arith, λ e. ground arith)
  option_beq_iff (some a) none = (λ e. ground arith, λ e. ground arith)
  option_beq_iff (some a) (some b) =
      (λ e. ground (arith, key.beq_iff a b), λ e. ground (arith, key.beq_iff a b))

  instance abbrev pub list_key : Key (List K)
  list_key = record { beq = list_beq; beq_iff = list_beq_iff }

  instance abbrev pub option_key : Key (Option K)
  option_key = record { beq = option_beq; beq_iff = option_beq_iff }

-- The keys of a map are distinct, and `insert` keeps them so.
module _ {ℓ κ} {K : Type ℓ} {V : Type κ} ⦃key : Key K⦄ where
  abbrev pub Absent : K → List (K × V) → Type 0
  Absent k [] = Unit {0}
  Absent k ((j, v) ∷ d) = (key.beq j k ≡ false) × Absent k d

  abbrev pub Distinct : List (K × V) → Type 0
  Distinct [] = Unit {0}
  Distinct ((k, v) ∷ d) = Absent k d × Distinct d

  pub lookup_of_Absent : (k : K) (d : List (K × V)) → Absent k d → lookup k d ≡ none
  unfolding lookup
  lookup_of_Absent k [] a = refl
  lookup_of_Absent k ((j, v) ∷ d) (other, a) = rw other (lookup_of_Absent k d a)

  insert-Absent :
      (i k : K) (v : V) (d : List (K × V))
      → key.beq k i ≡ false
      → Absent i d
      → Absent i (insert k v d)
  unfolding insert
  insert-Absent i k v [] other a = (other, tt)
  insert-Absent i k v ((j, w) ∷ d) other (b, a) = elim (Bool-cases (key.beq j k)) [
    | inl same ↦ rw same (other, a)
    | inr differ ↦ rw differ (b, insert-Absent i k v d other a)
  ]

  pub insert-Distinct : (k : K) (v : V) (d : List (K × V)) → Distinct d → Distinct (insert k v d)
  unfolding insert
  insert-Distinct k v [] m = (tt, tt)
  insert-Distinct k v ((j, w) ∷ d) (a, m) = elim (Bool-cases (key.beq j k)) [
    | inl same ↦ rw same (subst (λ i. Absent i d) ((key.beq_iff j k).0 same) a, m)
    | inr differ ↦ rw differ (insert-Absent j k v d (flip differ) a, insert-Distinct k v d m)
  ]
    where
      flip : key.beq j k ≡ false → key.beq k j ≡ false
      flip o = ground (arith, key.beq_iff j k, key.beq_iff k j)

  -- What holds of the entries of a map, and of the entry that is written, holds afterwards.
  pub insert-All :
      (P : K × V → Type 0) (k : K) (v : V) (d : List (K × V))
      → P (k, v)
      → All P d
      → All P (insert k v d)
  unfolding insert
  insert-All P k v [] p a = (p, tt)
  insert-All P k v ((j, w) ∷ d) p (q, a) = elim (Bool-cases (key.beq j k)) [
    | inl same ↦ rw same (p, a)
    | inr differ ↦ rw differ (q, insert-All P k v d p a)
  ]
