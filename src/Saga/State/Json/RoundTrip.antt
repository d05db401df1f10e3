-- ===== src/Saga/State/Json/RoundTrip.antt =====
-- The two functions of packages/sagas/orchestration/dsl/saga-execution-state-json-serde.ts together.
use nest_convoy.Prelude.{
  Text, codes, sym, ℕ, suc, ◌≡◌, refl, ap, ◌∙◌, Bool, true, false, [], ◌∷◌, ◌++◌, arith, nat_eq,
}
use nest_convoy.Prelude.Int.{ℤ, pos, negsuc}
use nest_convoy.Prelude.Result.{ok}
use nest_convoy.Saga.State.{SagaExecutionState}
use nest_convoy.Prelude.Numbers.{print_nat, read_nat, is_digit, print_nat_head, read-print_nat}
use nest_convoy.Saga.State.Json.{
  assign_field, read_word, text_eq, expect, encode_body, more_members, read_member, print_int,
  print_bool, encode_execution_state, num, bool, read_string, read_number, read_scalar,
  read_members, read_object, assign, decode_execution_state,
}

digit-ne : (d c : ℕ) → is_digit d ≡ true → is_digit c ≡ false → nat_eq d c ≡ false
digit-ne d c h k = ground arith

read_number-print :
    (n c : ℕ) (rest : Text)
    → is_digit c ≡ false
    → read_number (print_nat n (c ∷ rest)) ≡ ok (n, c ∷ rest)
read_number-print n c rest h =
    let (d, s, e, digit) = print_nat_head n (c ∷ rest) in
    rw e
      (unfold read_number in rw digit (ap ok (ap (read_nat 0) (sym e) ∙ read-print_nat n c rest h)))

read_scalar-print_int :
    (z : ℤ) (c : ℕ) (rest : Text)
    → is_digit c ≡ false
    → read_scalar (print_int z (c ∷ rest)) ≡ ok (num z, c ∷ rest)
unfolding read_scalar
read_scalar-print_int (pos n) c rest h =
    let (d, s, e, digit) = print_nat_head n (c ∷ rest) in
    let number : read_number (d ∷ s) ≡ ok (n, c ∷ rest) = rw e at (read_number-print n c rest h) in
    rw e (
      rw (
        digit-ne d b'-' digit refl,
        digit-ne d b't' digit refl,
        digit-ne d b'f' digit refl,
        number,
      ))
read_scalar-print_int (negsuc n) c rest h = rw (read_number-print (suc n) c rest h) (ground arith)

read_scalar-print_bool :
    (b : Bool) (rest : Text) → read_scalar (print_bool b rest) ≡ ok (bool b, rest)
unfolding read_scalar read_word expect
read_scalar-print_bool true rest = refl
read_scalar-print_bool false rest = refl

read_member_int :
    (z : ℤ) (c : ℕ) (rest : Text)
    → is_digit c ≡ false
    → read_member (codes "\"currentlyExecuting\":" ++ print_int z (c ∷ rest))
      ≡ ok ((codes "currentlyExecuting", num z), c ∷ rest)
unfolding read_member read_string expect
read_member_int z c rest h = rw (read_scalar-print_int z c rest h)

read_member_compensating :
    (b : Bool) (rest : Text)
    → read_member (codes "\"compensating\":" ++ print_bool b rest)
      ≡ ok ((codes "compensating", bool b), rest)
unfolding read_member read_string expect
read_member_compensating b rest = rw (read_scalar-print_bool b rest)

read_member_end_state :
    (b : Bool) (rest : Text)
    → read_member (codes "\"endState\":" ++ print_bool b rest)
      ≡ ok ((codes "endState", bool b), rest)
unfolding read_member read_string expect
read_member_end_state b rest = rw (read_scalar-print_bool b rest)

members-encode :
    (f : ℕ) (s : SagaExecutionState)
    → read_members (suc (suc (suc f))) (encode_body s)
      ≡ ok (
          (codes "currentlyExecuting", num s.currently_executing)
          ∷ (codes "compensating", bool s.compensating)
          ∷ (codes "endState", bool s.end_state)
          ∷ [])
unfolding read_members more_members
members-encode f s = rw (
  read_member_int s.currently_executing b',' _ refl,
  read_member_compensating s.compensating _,
  read_member_end_state s.end_state (b'}' ∷ []),
)

-- A state that was written is read back as it was: no saga resumes at another step, or in another
-- direction, than it was saved with.
pub decode-encode :
    (s : SagaExecutionState) → decode_execution_state (encode_execution_state s) ≡ ok s
unfolding decode_execution_state encode_execution_state expect text_eq assign_field read_object
    assign
decode-encode s = rw (members-encode _ s)
