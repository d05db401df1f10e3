-- ===== src/Prelude/Split.antt =====
-- `split` at a character, over the code points of a text, and `startsWith`.
use nest_convoy.Prelude.{
  arith, Text, ℕ, true, false, List, [], ◌∷◌, ◌++◌, ◌≡◌, refl, nat_eq, if◌then◌else◌, All, Option,
  none, some,
}

abbrev grow : ℕ → List Text → List Text
grow c [] = (c ∷ []) ∷ []
grow c (p ∷ ps) = (c ∷ p) ∷ ps

unfoldable pub split_on : ℕ → Text → List Text
split_on d [] = [] ∷ []
split_on d (c ∷ s) = let rest = split_on d s in if nat_eq c d then [] ∷ rest else grow c rest

-- What stands behind a given beginning, if the text has it.
unfoldable pub strip_prefix : Text → Text → Option Text
strip_prefix [] s = some s
strip_prefix (p ∷ ps) [] = none
strip_prefix (p ∷ ps) (c ∷ s) = if nat_eq p c then strip_prefix ps s else none

abbrev pub Without : ℕ → Text → Type 0
Without d s = All (λ c. nat_eq c d ≡ false) s

pub split_on-part :
    (d : ℕ) (p s : Text) → Without d p → split_on d (p ++ (d ∷ s)) ≡ p ∷ split_on d s
unfolding split_on
split_on-part d [] s w = ground arith
split_on-part d (c ∷ p) s (other, w) = rw (split_on-part d p s w, other) refl

pub split_on-last : (d : ℕ) (p : Text) → Without d p → split_on d p ≡ p ∷ []
unfolding split_on
split_on-last d [] w = refl
split_on-last d (c ∷ p) (other, w) = rw (split_on-last d p w, other) refl

pub strip_prefix-append : (p s : Text) → strip_prefix p (p ++ s) ≡ some s
unfolding strip_prefix
strip_prefix-append [] s = refl
strip_prefix-append (c ∷ p) s = rw (nat_eq_refl c, strip_prefix-append p s) refl
  where
    nat_eq_refl : (a : ℕ) → nat_eq a a ≡ true
    nat_eq_refl a = ground arith
