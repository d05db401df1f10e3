-- ===== src/Saga/State/Json.antt =====
-- packages/sagas/orchestration/dsl/saga-execution-state-json-serde.ts. The name of a saga's state
-- is a JSON text, here the list of its code points. `stringify` writes what `JSON.stringify` does;
-- of `JSON.parse` stand here the flat objects of numbers and Booleans without white space, and all
-- else is a syntax error.
pub mod RoundTrip
use nest_convoy.Prelude.{
  Text, codes, ◌≡◌, refl, ◌&&◌, ℕ, suc, zero, ◌+◌, ◌-◌, Bool, true, false, Option, none, some, List,
  [], ◌∷◌, ◌++◌, if◌then◌else◌, nat_eq, length,
}
use nest_convoy.Prelude.Int.{ℤ, pos, negsuc, sub_ℕ}
use nest_convoy.Prelude.Result.{Result, ok, err, ◌>>=◌}
use nest_convoy.Common.Exceptions.{syntax_error}
use nest_convoy.Saga.State.{SagaExecutionState, initial_state}
use nest_convoy.Prelude.Numbers.{print_nat, read_nat, is_digit}

abbrev print_int : ℤ → Text → Text
print_int (pos n) rest = print_nat n rest
print_int (negsuc n) rest = b'-' ∷ print_nat (suc n) rest

abbrev print_bool : Bool → Text → Text
print_bool true rest = codes "true" ++ rest
print_bool false rest = codes "false" ++ rest

-- `JSON.stringify(state)`: the fields in the order of the constructor's parameters.
abbrev encode_body : SagaExecutionState → Text
encode_body s =
    codes "\"currentlyExecuting\":"
    ++ print_int s.currently_executing (
        codes ","
        ++ (codes "\"compensating\":"
            ++ print_bool s.compensating
                (codes "," ++ (codes "\"endState\":" ++ print_bool s.end_state (codes "}")))))

unfoldable pub encode_execution_state : SagaExecutionState → Text
encode_execution_state s = codes "{" ++ encode_body s

pub data Scalar : Type 0 where
  num : ℤ → Scalar
  bool : Bool → Scalar

-- What is left behind a given beginning.
expect : Text → Text → Result Text
expect [] s = ok s
expect (p ∷ ps) [] = err syntax_error
expect (p ∷ ps) (c ∷ s) = if nat_eq p c then expect ps s else err syntax_error

-- The text up to the closing quote, and what follows it.
read_string : Text → Result (Text × Text)
read_string [] = err syntax_error
read_string (c ∷ s) =
    let rest = read_string s >>= λ r. ok (c ∷ r.0, r.1) in
    if nat_eq c b'"' then ok ([], s) else rest

read_number : Text → Result (ℕ × Text)
read_number [] = err syntax_error
read_number (c ∷ s) = if is_digit c then ok (read_nat 0 (c ∷ s)) else err syntax_error

read_word : Text → Scalar → Text → Result (Scalar × Text)
read_word word value s = expect word s >>= λ rest. ok (value, rest)

read_scalar : Text → Result (Scalar × Text)
read_scalar [] = err syntax_error
read_scalar (c ∷ s) =
    if nat_eq c b'-'
    then read_number s >>= (λ r. ok (num (sub_ℕ 0 r.0), r.1))
    else if nat_eq c b't'
    then read_word (codes "true") (bool true) (c ∷ s)
    else if nat_eq c b'f'
    then read_word (codes "false") (bool false) (c ∷ s)
    else read_number (c ∷ s) >>= (λ r. ok (num (pos r.0), r.1))

abbrev pub Field : Type 0
Field = Text × Scalar

read_member : Text → Result (Field × Text)
read_member s = do
  key ← expect (codes "\"") s >>= read_string
  value ← expect (codes ":") key.1 >>= read_scalar
  ok ((key.0, value.0), value.1)

-- What follows a member: the end of the object, or a comma and, as `rest` reads them, more.
more_members : Field → (Text → Result (List Field)) → Text → Result (List Field)
more_members m rest [] = err syntax_error
more_members m rest (c ∷ s) =
    if nat_eq c b','
    then rest s >>= (λ ms. ok (m ∷ ms))
    else if nat_eq c b'}' && nat_eq (length s) 0
    then ok (m ∷ [])
    else err syntax_error

-- Each member takes a character at least, so a text's length is enough fuel.
read_members : ℕ → Text → Result (List Field)
read_members zero s = err syntax_error
read_members (suc f) s = read_member s >>= λ r. more_members r.0 (read_members f) r.1

text_eq : Text → Text → Bool
text_eq [] [] = true
text_eq (c ∷ s) (d ∷ t) = nat_eq c d && text_eq s t
text_eq _ _ = false

pub read_object : Text → Result (List Field)
read_object s = expect (codes "{") s >>= λ body.
    if text_eq body (codes "}") then ok [] else read_members (length body) body

-- `Object.assign` for one field: of another name, or of another type, it leaves the state's own.
assign_field : SagaExecutionState → Field → SagaExecutionState
assign_field s (key, num z) =
    if text_eq key (codes "currentlyExecuting") then record s { currently_executing = z } else s
assign_field s (key, bool b) =
    if text_eq key (codes "compensating")
    then record s { compensating = b }
    else if text_eq key (codes "endState")
    then record s { end_state = b }
    else s

pub assign : SagaExecutionState → List Field → SagaExecutionState
assign s [] = s
assign s (m ∷ ms) = assign (assign_field s m) ms

-- `Object.assign(new SagaExecutionState(), JSON.parse(currentState))`.
unfoldable pub decode_execution_state : Text → Result SagaExecutionState
decode_execution_state text = read_object text >>= λ fields. ok (assign initial_state fields)

-- What a run of the decoder unfolds.
json : Unit {0}
unfolding expect read_string read_number read_word read_scalar read_member more_members read_members
    text_eq read_object assign_field assign
json = tt

json_tests :
    (encode_execution_state
        (record { currently_executing = pos 12; compensating = true; end_state = false })
      ≡ codes "{\"currentlyExecuting\":12,\"compensating\":true,\"endState\":false}")
    × (decode_execution_state (codes "{\"endState\":true,\"currentlyExecuting\":-1}")
        ≡ ok (record { currently_executing = negsuc 0; compensating = false; end_state = true }))
    × (decode_execution_state (codes "????") ≡ err syntax_error)
unfolding encode_execution_state decode_execution_state print_nat read_nat json
json_tests = (refl, refl, refl)
