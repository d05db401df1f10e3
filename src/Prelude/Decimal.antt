-- ===== src/Prelude/Decimal.antt =====
-- `String(n)` of a number, as a text of the engine.
use Prim.Native.Char.{Char, code}
use Prim.Native.Nat.{◌/◌, ◌%◌}
use nest_convoy.Prelude.{
  String, codes, ℕ, zero, suc, ◌+◌, ◌<◌, ◌≡◌, refl, [], if◌then◌else◌, ltb, arith, Bool-cases, inl,
  inr,
}
use nest_convoy.Prelude.Numbers.{digits, print_nat}

digit : ℕ → Char
digit zero = "0"
digit (suc zero) = "1"
digit (suc (suc zero)) = "2"
digit (suc (suc (suc zero))) = "3"
digit (suc (suc (suc (suc zero)))) = "4"
digit (suc (suc (suc (suc (suc zero))))) = "5"
digit (suc (suc (suc (suc (suc (suc zero)))))) = "6"
digit (suc (suc (suc (suc (suc (suc (suc zero))))))) = "7"
digit (suc (suc (suc (suc (suc (suc (suc (suc zero)))))))) = "8"
digit (suc (suc (suc (suc (suc (suc (suc (suc (suc _))))))))) = "9"

decimal_digits : ℕ → ℕ → String → String
unfolding digit
decimal_digits zero n rest = rest
decimal_digits (suc f) n rest =
    let more = decimal_digits f (n / 10) (String.◌∷◌ (digit (n % 10)) rest) in
    if ltb n 10 then String.◌∷◌ (digit (n % 10)) rest else more

unfoldable pub decimal : ℕ → String
unfolding decimal_digits
decimal n = decimal_digits (suc n) n ""

code-digit : (d : ℕ) → d < 10 → code (digit d) ≡ b'0' + d
unfolding digit
code-digit zero h = refl
code-digit (suc zero) h = refl
code-digit (suc (suc zero)) h = refl
code-digit (suc (suc (suc zero))) h = refl
code-digit (suc (suc (suc (suc zero)))) h = refl
code-digit (suc (suc (suc (suc (suc zero))))) h = refl
code-digit (suc (suc (suc (suc (suc (suc zero)))))) h = refl
code-digit (suc (suc (suc (suc (suc (suc (suc zero))))))) h = refl
code-digit (suc (suc (suc (suc (suc (suc (suc (suc zero)))))))) h = refl
code-digit (suc (suc (suc (suc (suc (suc (suc (suc (suc n))))))))) h =
    let last : n ≡ 0 = omega arith in rw last refl

codes-decimal_digits :
    (f n : ℕ) (rest : String) → codes (decimal_digits f n rest) ≡ digits f n (codes rest)
unfolding decimal_digits digits
codes-decimal_digits zero n rest = refl
codes-decimal_digits (suc f) n rest = elim (Bool-cases (ltb n 10)) [
  | inl small ↦ rw (small, code-digit (n % 10) (omega arith)) refl
  | inr large ↦
      rw (large, ← code-digit (n % 10) (omega arith))
        (codes-decimal_digits f (n / 10) (String.◌∷◌ (digit (n % 10)) rest))
]

-- The text has the characters of the decimal number.
pub codes-decimal : (n : ℕ) → codes (decimal n) ≡ print_nat n []
unfolding decimal print_nat
codes-decimal n = codes-decimal_digits (suc n) n ""

decimal_test : decimal 1207 ≡ "1207"
unfolding decimal
decimal_test = refl
