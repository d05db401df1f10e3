-- ===== src/Commands/Paths.antt =====
-- packages/commands/common/paths. `split('/')` and `join('/')` are the engine's: they are written
-- out over the code points of a path.
pub mod Laws
use nest_convoy.Prelude.{
  Text, ℕ, zero, suc, Bool, true, false, Option, none, some, List, [], ◌∷◌, ◌++◌, if◌then◌else◌,
  nat_eq, length, get_elem?, ◌&&◌, ◌||◌, leb,
}
use nest_convoy.Prelude.Result.{Result, ok, err, ◌>>=◌}
use nest_convoy.Common.Exceptions.{type_error}

unfoldable pub text_eq : Text → Text → Bool
text_eq [] [] = true
text_eq (c ∷ s) (d ∷ t) = nat_eq c d && text_eq s t
text_eq _ _ = false

-- A character in front of the first part.
abbrev grow : ℕ → List Text → List Text
grow c [] = (c ∷ []) ∷ []
grow c (p ∷ ps) = (c ∷ p) ∷ ps

unfoldable pub split_slash : Text → List Text
split_slash [] = [] ∷ []
split_slash (c ∷ s) = let rest = split_slash s in if nat_eq c b'/' then [] ∷ rest else grow c rest

unfoldable pub join_slash : List Text → Text
join_slash [] = []
join_slash (p ∷ []) = p
join_slash (p ∷ q ∷ ps) = p ++ (b'/' ∷ join_slash (q ∷ ps))

abbrev starts_with : ℕ → Text → Bool
starts_with c [] = false
starts_with c (d ∷ s) = nat_eq d c

unfoldable pub split_resource_path : Text → Result (List Text)
split_resource_path path = if starts_with b'/' path then ok (split_slash path) else err type_error

unfoldable pub is_placeholder : Text → Bool
is_placeholder segment = starts_with b'{' segment

unfoldable pub path_segment_matches : Text → Text → Bool
path_segment_matches pattern segment = is_placeholder pattern || text_eq pattern segment

-- The loop of `every` over the pattern's parts; the lengths agree.
unfoldable pub every_matches : List Text → List Text → Bool
every_matches [] path = true
every_matches (p ∷ ps) [] = is_placeholder p && every_matches ps []
every_matches (p ∷ ps) (s ∷ ss) = path_segment_matches p s && every_matches ps ss

unfoldable pub is_satisfied_by : List Text → List Text → Bool
unfolding every_matches
is_satisfied_by pattern path =
    if nat_eq (length pattern) (length path) then every_matches pattern path else false

-- A `ResourcePath` and a `ResourcePathPattern` are made before the test, and either may throw.
unfoldable pub resource_matches : Text → Text → Result Bool
unfolding split_resource_path is_satisfied_by
resource_matches message_resource method_path = do
  rp ← split_resource_path message_resource
  rpp ← split_resource_path method_path
  ok (is_satisfied_by rpp rp)

-- The values of the placeholders, by the placeholder's part; a later one of the same name wins.
unfoldable pub get_path_variable_values : List Text → List Text → List (Text × Option Text)
get_path_variable_values [] path = []
get_path_variable_values (p ∷ ps) [] =
    if is_placeholder p
    then (p, none) ∷ get_path_variable_values ps []
    else get_path_variable_values ps []
get_path_variable_values (p ∷ ps) (s ∷ ss) =
    if is_placeholder p
    then (p, some s) ∷ get_path_variable_values ps ss
    else get_path_variable_values ps ss

unfoldable pub get_placeholder_value : List Text → ℕ → Text
get_placeholder_value params idx = elim (get_elem? params idx) [ none ↦ [] | some p ↦ p ]

-- `map` with the counter `idx`. A missing value is `null`, which `join` writes as nothing.
unfoldable pub replace_placeholders : List Text → ℕ → List Text → List Text
replace_placeholders params idx [] = []
replace_placeholders params idx (s ∷ ss) =
    if is_placeholder s
    then get_placeholder_value params idx ∷ replace_placeholders params (suc idx) ss
    else s ∷ replace_placeholders params idx ss

-- `forResource` of a `CommandWithDestinationBuilder`: the path of the pattern with its placeholders
-- replaced. `params` are the texts that `toString()` gives of the path parameters.
unfoldable pub for_resource : Text → List Text → Result Text
for_resource resource params = do
  rpp ← split_resource_path resource
  rp ← split_resource_path (join_slash (replace_placeholders params 0 rpp))
  ok (join_slash rp)
