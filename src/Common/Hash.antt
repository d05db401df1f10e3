-- ===== src/Common/Hash.antt =====
-- packages/common/utils.ts: `hashCode`. A number is an integer, and the operators on 32 bits are
-- written out: `<<` and `&` first make an integer of 32 bits with a sign. The characters are the
-- units of a text, numbers below 2 ^ 16.
use nest_convoy.Prelude.{
  Text, ℕ, suc, ◌+◌, ◌-◌, ◌<◌, ◌≤◌, ◌≡◌, refl, ap, ◌∙◌, [], ◌∷◌, if◌then◌else◌, ltb, arith,
  Bool-cases, inl, inr,
}
use Prim.Native.Nat.{◌*◌, ◌%◌}
use nest_convoy.Prelude.Int.{ℤ, pos, negsuc, sub_ℕ, pos_part, neg_part, ◌+ℤ◌, ◌-ℤ◌}

-- An integer modulo 2 ^ 32.
unfoldable pub to_uint32 : ℤ → ℕ
to_uint32 (pos n) = n % 4294967296
to_uint32 (negsuc n) = 4294967295 - n % 4294967296

-- The number of 32 bits with a sign that has these bits.
unfoldable pub signed : ℕ → ℤ
signed u = if ltb u 2147483648 then pos u else negsuc (4294967295 - u)

unfoldable pub to_int32 : ℤ → ℤ
to_int32 z = signed (to_uint32 z)

-- `h << 5`.
unfoldable pub shift_left_5 : ℤ → ℤ
shift_left_5 h = signed (to_uint32 h * 32 % 4294967296)

-- The body of the loop: `hash = (hash << 5) - hash + char; hash = hash & hash`.
unfoldable pub hash_step : ℤ → ℕ → ℤ
hash_step h c = to_int32 (shift_left_5 h -ℤ h +ℤ pos c)

unfoldable pub hash_from : ℤ → Text → ℤ
hash_from h [] = h
hash_from h (c ∷ s) = hash_from (hash_step h c) s

unfoldable pub hash_code : Text → ℤ
hash_code s = hash_from (pos 0) s

-- `%` has the sign of its first operand; -0 is 0 here.
unfoldable pub remainder : ℤ → ℕ → ℤ
remainder (pos n) k = pos (n % k)
remainder (negsuc n) k = sub_ℕ 0 (suc n % k)

-- `hashCode(aggregateId) % 8`.
unfoldable pub partition_of : Text → ℤ
partition_of id = remainder (hash_code id) 8

-- The polynomial in 31 that the hash stands for.
abbrev pub polynomial : ℕ → Text → ℕ
polynomial u [] = u
polynomial u (c ∷ s) = polynomial ((31 * u + c) % 4294967296) s

to_uint32-signed : (u : ℕ) → u < 4294967296 → to_uint32 (signed u) ≡ u
unfolding to_uint32 signed
to_uint32-signed u h = ground arith

to_uint32-sub :
    (a b : ℕ)
    → to_uint32 (sub_ℕ a b) ≡ (a % 4294967296 + (4294967296 - b % 4294967296)) % 4294967296
unfolding to_uint32
to_uint32-sub a b = ground arith

to_uint32-parts :
    (z : ℤ)
    → to_uint32 z ≡ (pos_part z % 4294967296 + (4294967296 - neg_part z % 4294967296)) % 4294967296
unfolding to_uint32
to_uint32-parts (pos n) = ground arith
to_uint32-parts (negsuc n) = ground arith

to_uint32-plus : (a : ℤ) (c : ℕ) → to_uint32 (a +ℤ pos c) ≡ (to_uint32 a + c) % 4294967296
to_uint32-plus a c =
    to_uint32-sub (pos_part a + c) (neg_part a + 0) ∙ rw (to_uint32-parts a) (omega arith)

to_uint32-minus :
    (a b : ℤ) → to_uint32 (a -ℤ b) ≡ (to_uint32 a + (4294967296 - to_uint32 b)) % 4294967296
to_uint32-minus a b =
    to_uint32-sub (pos_part a + neg_part b) (neg_part a + pos_part b)
    ∙ rw (to_uint32-parts a, to_uint32-parts b) (omega arith)

-- One round of the loop on the bits: 31 times the hash and the character, modulo 2 ^ 32.
hash_step-signed :
    (u c : ℕ) → u < 4294967296 → hash_step (signed u) c ≡ signed ((31 * u + c) % 4294967296)
unfolding hash_step to_int32 shift_left_5
hash_step-signed u c h = ap signed (
    to_uint32-plus (signed (to_uint32 (signed u) * 32 % 4294967296) -ℤ signed u) c
    ∙ rw
        (
          to_uint32-minus (signed (to_uint32 (signed u) * 32 % 4294967296)) (signed u),
          to_uint32-signed u h,
          to_uint32-signed (u * 32 % 4294967296) (omega arith),
        )
        (omega arith))

hash_from-signed :
    (s : Text) (u : ℕ) → u < 4294967296 → hash_from (signed u) s ≡ signed (polynomial u s)
unfolding hash_from
hash_from-signed [] u h = refl
hash_from-signed (c ∷ s) u h =
    rw (hash_step-signed u c h) (hash_from-signed s ((31 * u + c) % 4294967296) (omega arith))

-- The hash is the polynomial in 31 over the text's characters modulo 2 ^ 32, taken as a number of
-- 32 bits with a sign: neither the shift nor the difference loses a bit that counts.
pub hash_code-polynomial : (s : Text) → hash_code s ≡ signed (polynomial 0 s)
unfolding hash_code signed
hash_code-polynomial s = hash_from-signed s 0 (omega arith)

polynomial-lt : (s : Text) (u : ℕ) → u < 4294967296 → polynomial u s < 4294967296
polynomial-lt [] u h = h
polynomial-lt (c ∷ s) u h = polynomial-lt s ((31 * u + c) % 4294967296) (omega arith)

signed-bounds :
    (u : ℕ)
    → u < 4294967296
    → (pos_part (signed u) < 2147483648) × (neg_part (signed u) ≤ 2147483648)
unfolding signed
signed-bounds u h = elim (Bool-cases (ltb u 2147483648)) [
  | inl small ↦ rw small (ground arith, omega arith)
  | inr large ↦ rw large (omega arith, ground arith)
]

remainder-parts :
    (z : ℤ)
    → (pos_part (remainder z 8) ≡ pos_part z % 8) × (neg_part (remainder z 8) ≡ neg_part z % 8)
unfolding remainder
remainder-parts (pos n) = (refl, refl)
remainder-parts (negsuc n) = (ground arith, ground arith)

-- A hash is a number of 32 bits with a sign. The partition of an aggregate is the hash's distance
-- from 0 modulo 8, with the sign of the hash: it is between -7 and 7, and a negative hash gives no
-- positive partition.
pub partition_of-bounds :
    (id : Text)
    → (pos_part (hash_code id) < 2147483648)
      × (neg_part (hash_code id) ≤ 2147483648)
      × (pos_part (partition_of id) ≡ pos_part (hash_code id) % 8)
      × (neg_part (partition_of id) ≡ neg_part (hash_code id) % 8)
      × (pos_part (partition_of id) < 8)
      × (neg_part (partition_of id) < 8)
unfolding partition_of
partition_of-bounds id =
    let hash = signed-bounds (polynomial 0 id) (polynomial-lt id 0 (omega arith)) in
    let (above, below) = remainder-parts (hash_code id) in
    (
      rw (hash_code-polynomial id) hash.0,
      rw (hash_code-polynomial id) hash.1,
      above,
      below,
      omega (arith, above),
      omega (arith, below),
    )

abbrev tests_text : Text
tests_text = b'a' ∷ b'b' ∷ []

hash_tests : (hash_code tests_text ≡ pos 3105) × (to_int32 (pos 4294967295) ≡ negsuc 0)
unfolding hash_code hash_from hash_step to_int32 shift_left_5 to_uint32 signed
hash_tests = (refl, refl)
