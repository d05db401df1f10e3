-- ===== src/Events/Snapshot/Context.antt =====
-- packages/events/aggregate/snapshot/etpo-event-context.ts. A token is the list of its code points.
-- `parseInt` and `BigInt` are modelled on decimal digits, without white space, a sign or a prefix of
-- the radix; `none` is NaN.
use nest_convoy.Prelude.{
  Text, codes, ℕ, ◌≡◌, refl, Bool, true, false, List, [], ◌∷◌, ◌++◌, if◌then◌else◌, Option, none,
  some,
}
use nest_convoy.Prelude.Numbers.{print_nat, read_nat, is_digit}
use nest_convoy.Prelude.Split.{split_on, strip_prefix}
use nest_convoy.Prelude.Result.{Result, ok, err, ◌>>=◌}
use nest_convoy.Common.Exceptions.{type_error, syntax_error}

pub record DecodedEtpoContext : Type 0 where
  pub context_id : Text
  pub topic : Text
  pub partition : Option ℕ
  pub offset : ℕ

abbrev pub prefix : Text
prefix = codes "etpo:"

unfoldable pub parse_int : Text → Option ℕ
parse_int [] = none
parse_int (c ∷ s) = if is_digit c then some (read_nat 0 (c ∷ s)).0 else none

abbrev whole_number : ℕ × Text → Result ℕ
whole_number (n, []) = ok n
whole_number (n, c ∷ s) = err syntax_error

-- Of an empty text it is 0.
unfoldable pub big_int : Text → Result ℕ
big_int s = whole_number (read_nat 0 s)

unfoldable pub is_etpo_event : Text → Bool
is_etpo_event token = elim (strip_prefix prefix token) [ none ↦ false | some _ ↦ true ]

-- The parts that are missing are undefined, and `BigInt(undefined)` throws.
unfoldable pub decode_parts : List Text → Result DecodedEtpoContext
decode_parts (id ∷ t ∷ p ∷ o ∷ _) = big_int o >>= λ n.
    ok (record { context_id = id; topic = t; partition = parse_int p; offset = n })
decode_parts _ = err type_error

unfoldable pub decode : Text → Result (Option DecodedEtpoContext)
decode token = elim (strip_prefix prefix token) [
  | none ↦ ok none
  | some rest ↦ decode_parts (split_on b':' rest) >>= λ d. ok (some d)
]

-- `${partition}`.
unfoldable pub print_partition : Option ℕ → Text
print_partition none = codes "NaN"
print_partition (some p) = print_nat p []

-- The `eventToken` of a `new EtpoEventContext`.
unfoldable pub event_token : DecodedEtpoContext → Text
event_token d =
    prefix
    ++ (d.context_id
        ++ (b':'
            ∷ (d.topic
                ++ (b':' ∷ (print_partition d.partition ++ (b':' ∷ print_nat d.offset []))))))

abbrev some_context : DecodedEtpoContext
some_context = record {
  context_id = codes "7-a";
  topic = codes "Account";
  partition = some 2;
  offset = 18;
}

token_tests :
    (event_token some_context ≡ codes "etpo:7-a:Account:2:18")
    × (decode (codes "etpo:7-a:Account:2:18") ≡ ok (some some_context))
    × (decode (codes "etpo:7-a:Account") ≡ err type_error)
    × (decode (codes "etpo:7-a:Account:2:x") ≡ err syntax_error)
    × (decode (codes "kafka:7-a") ≡ ok none)
unfolding event_token decode decode_parts big_int parse_int print_nat read_nat split_on strip_prefix
    print_partition
token_tests = (refl, refl, refl, refl, refl)
