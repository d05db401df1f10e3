-- ===== src/Prelude/Numbers.antt =====
-- Decimal numbers, as `JSON.stringify` prints them and `JSON.parse` reads them.
use nest_convoy.Prelude.{
  ◌++◌, All, Text, codes, ℕ, suc, zero, ◌+◌, ◌-◌, ◌<◌, ◌≡◌, refl, ap, ◌∙◌, Bool, true, false, [],
  ◌∷◌, ◌&&◌, if◌then◌else◌, leb, ltb, arith, Bool-cases, inl, inr,
}
use Prim.Native.Nat.{◌*◌, ◌/◌, ◌%◌}

abbrev pub is_digit : ℕ → Bool
is_digit c = leb b'0' c && leb c b'9'

unfoldable pub digits : ℕ → ℕ → Text → Text
digits zero n rest = rest
digits (suc f) n rest =
    let more = digits f (n / 10) ((b'0' + n % 10) ∷ rest) in
    if ltb n 10 then (b'0' + n % 10) ∷ rest else more

-- The decimal digits of a number, in front of `rest`. The number has fewer digits than `n + 1`.
unfoldable pub print_nat : ℕ → Text → Text
unfolding digits
print_nat n rest = digits (suc n) n rest

-- The digits at the beginning, added to the number read so far.
unfoldable pub read_nat : ℕ → Text → ℕ × Text
read_nat acc [] = (acc, [])
read_nat acc (c ∷ s) =
    let more = read_nat (acc * 10 + (c - b'0')) s in if is_digit c then more else (acc, c ∷ s)

read_digit :
    (acc d : ℕ) (rest : Text)
    → d < 10
    → read_nat acc ((b'0' + d) ∷ rest) ≡ read_nat (acc * 10 + d) rest
unfolding read_nat
read_digit acc d rest h = ground arith

read-digits : (f n : ℕ) (rest : Text) → n < f → read_nat 0 (digits f n rest) ≡ read_nat n rest
unfolding digits
read-digits zero n rest h = elim h [ ]
read-digits (suc f) n rest h = elim (Bool-cases (ltb n 10)) [
  | inl small ↦
      let whole : 0 * 10 + n % 10 ≡ n = ground arith in
      rw small (read_digit 0 (n % 10) rest (omega arith) ∙ ap (λ (k : ℕ). read_nat k rest) whole)
  | inr large ↦
      let whole : n / 10 * 10 + n % 10 ≡ n = omega arith in
      rw large (
        read-digits f (n / 10) ((b'0' + n % 10) ∷ rest) (ground arith)
        ∙ read_digit (n / 10) (n % 10) rest (omega arith)
        ∙ ap (λ (k : ℕ). read_nat k rest) whole)
]

digits_head :
    (f n : ℕ) (rest : Text)
    → n < f
    → (c : ℕ) × (s : Text) × (digits f n rest ≡ c ∷ s) × (is_digit c ≡ true)
unfolding digits
digits_head zero n rest h = elim h [ ]
digits_head (suc f) n rest h = elim (Bool-cases (ltb n 10)) [
  | inl small ↦ rw small (b'0' + n % 10, rest, refl, ground arith)
  | inr large ↦ rw large (digits_head f (n / 10) ((b'0' + n % 10) ∷ rest) (ground arith))
]

-- A printed number begins with a digit.
pub print_nat_head :
    (n : ℕ) (rest : Text) → (c : ℕ) × (s : Text) × (print_nat n rest ≡ c ∷ s) × (is_digit c ≡ true)
unfolding print_nat
print_nat_head n rest = digits_head (suc n) n rest (omega arith)

-- A printed number is read back, up to the first character that is no digit.
pub read-print_nat :
    (n c : ℕ) (rest : Text)
    → is_digit c ≡ false
    → read_nat 0 (print_nat n (c ∷ rest)) ≡ (n, c ∷ rest)
unfolding print_nat
read-print_nat n c rest h = read-digits (suc n) n (c ∷ rest) (omega arith) ∙ stop
  where
    stop : read_nat n (c ∷ rest) ≡ (n, c ∷ rest)
    stop = unfold read_nat in rw h

print_tests : (print_nat 1207 [] ≡ codes "1207") × (read_nat 0 (codes "340,") ≡ (340, codes ","))
unfolding print_nat read_nat
print_tests = (refl, refl)

-- A printed number alone.
pub read-print_nat_alone : (n : ℕ) → read_nat 0 (print_nat n []) ≡ (n, [])
unfolding print_nat
read-print_nat_alone n = read-digits (suc n) n [] (omega arith) ∙ stop
  where
    stop : read_nat n [] ≡ (n, [])
    stop = unfold read_nat in refl

digits-append : (f n : ℕ) (r s : Text) → digits f n (r ++ s) ≡ digits f n r ++ s
unfolding digits
digits-append zero n r s = refl
digits-append (suc f) n r s = elim (Bool-cases (ltb n 10)) [
  | inl small ↦ rw small refl
  | inr large ↦ rw large (digits-append f (n / 10) ((b'0' + n % 10) ∷ r) s)
]

pub print_nat-append : (n : ℕ) (s : Text) → print_nat n s ≡ print_nat n [] ++ s
unfolding print_nat
print_nat-append n s = digits-append (suc n) n [] s

digits-All :
    (f n : ℕ) (r : Text)
    → All (λ c. is_digit c ≡ true) r
    → All (λ c. is_digit c ≡ true) (digits f n r)
unfolding digits
digits-All zero n r h = h
digits-All (suc f) n r h = elim (Bool-cases (ltb n 10)) [
  | inl small ↦ rw small (ground arith, h)
  | inr large ↦ rw large (digits-All f (n / 10) ((b'0' + n % 10) ∷ r) (ground arith, h))
]

-- All that is printed is a digit.
pub print_nat-All : (n : ℕ) → All (λ c. is_digit c ≡ true) (print_nat n [])
unfolding print_nat
print_nat-All n = digits-All (suc n) n [] tt
