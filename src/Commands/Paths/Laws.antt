-- ===== src/Commands/Paths/Laws.antt =====
-- The resource paths of packages/commands/common/paths: what a pattern's own paths are matched by.
use nest_convoy.Prelude.{
  Text, ℕ, zero, suc, ◌≡◌, refl, ap, ◌∙◌, true, false, List, [], ◌∷◌, ◌++◌, nat_eq, length, All,
  arith, Bool-cases, inl, inr,
}
use nest_convoy.Prelude.Result.{ok}
use nest_convoy.Commands.Paths.{
  text_eq, split_slash, join_slash, starts_with, grow, split_resource_path, is_placeholder,
  path_segment_matches, every_matches, is_satisfied_by, resource_matches, get_placeholder_value,
  replace_placeholders, for_resource,
}

-- A part of a path.
abbrev pub NoSlash : Text → Type 0
NoSlash s = All (λ c. nat_eq c b'/' ≡ false) s

text_eq_refl : (s : Text) → text_eq s s ≡ true
unfolding text_eq
text_eq_refl [] = refl
text_eq_refl (c ∷ s) = rw (text_eq_refl s) (ground arith)

-- Splitting undoes the joining of parts without a slash.
split_slash-part :
    (p : Text) (s : Text) → NoSlash p → split_slash (p ++ (b'/' ∷ s)) ≡ p ∷ split_slash s
unfolding split_slash
split_slash-part [] s ok_p = refl
split_slash-part (c ∷ p) s (other, ok_p) = rw (split_slash-part p s ok_p, other) refl

split_slash-last : (p : Text) → NoSlash p → split_slash p ≡ p ∷ []
unfolding split_slash
split_slash-last [] ok_p = refl
split_slash-last (c ∷ p) (other, ok_p) = rw (split_slash-last p ok_p, other) refl

pub split_slash-join_slash :
    (p : Text) (ps : List Text)
    → NoSlash p
    → All NoSlash ps
    → split_slash (join_slash (p ∷ ps)) ≡ p ∷ ps
unfolding join_slash
split_slash-join_slash p [] n ns = split_slash-last p n
split_slash-join_slash p (q ∷ ps) n (m, ns) =
    split_slash-part p (join_slash (q ∷ ps)) n ∙ ap (λ l. p ∷ l) (split_slash-join_slash q ps m ns)

grow-NoSlash :
    (c : ℕ) (ps : List Text) → nat_eq c b'/' ≡ false → All NoSlash ps → All NoSlash (grow c ps)
grow-NoSlash c [] other ns = ((other, tt), tt)
grow-NoSlash c (p ∷ ps) other (n, ns) = ((other, n), ns)

split_slash-NoSlash : (s : Text) → All NoSlash (split_slash s)
unfolding split_slash
split_slash-NoSlash [] = (tt, tt)
split_slash-NoSlash (c ∷ s) = elim (Bool-cases (nat_eq c b'/')) [
  | inl slash ↦ rw slash (tt, split_slash-NoSlash s)
  | inr other ↦ rw other (grow-NoSlash c (split_slash s) other (split_slash-NoSlash s))
]

get_placeholder_value-NoSlash :
    (params : List Text) (i : ℕ) → All NoSlash params → NoSlash (get_placeholder_value params i)
unfolding get_placeholder_value
get_placeholder_value-NoSlash [] i ns = tt
get_placeholder_value-NoSlash (p ∷ ps) zero (n, ns) = n
get_placeholder_value-NoSlash (p ∷ ps) (suc i) (n, ns) = get_placeholder_value-NoSlash ps i ns

replace_placeholders-NoSlash :
    (params : List Text) (i : ℕ) (ss : List Text)
    → All NoSlash params
    → All NoSlash ss
    → All NoSlash (replace_placeholders params i ss)
unfolding replace_placeholders
replace_placeholders-NoSlash params i [] ns ms = tt
replace_placeholders-NoSlash params i (s ∷ ss) ns (m, ms) = elim (Bool-cases (is_placeholder s)) [
  | inl hole ↦ rw hole (
    get_placeholder_value-NoSlash params i ns,
    replace_placeholders-NoSlash params (suc i) ss ns ms,
  )
  | inr fixed ↦ rw fixed (m, replace_placeholders-NoSlash params i ss ns ms)
]

-- A pattern is satisfied by what replaces its placeholders.
every_matches-replace_placeholders :
    (params : List Text) (i : ℕ) (ss : List Text)
    → every_matches ss (replace_placeholders params i ss) ≡ true
unfolding every_matches replace_placeholders path_segment_matches
every_matches-replace_placeholders params i [] = refl
every_matches-replace_placeholders params i (s ∷ ss) = elim (Bool-cases (is_placeholder s)) [
  | inl hole ↦ rw (hole, hole, every_matches-replace_placeholders params (suc i) ss) refl
  | inr fixed ↦
      rw (fixed, fixed, text_eq_refl s, every_matches-replace_placeholders params i ss) refl
]

length-replace_placeholders :
    (params : List Text) (i : ℕ) (ss : List Text)
    → length (replace_placeholders params i ss) ≡ length ss
unfolding replace_placeholders
length-replace_placeholders params i [] = refl
length-replace_placeholders params i (s ∷ ss) = elim (Bool-cases (is_placeholder s)) [
  | inl hole ↦ rw hole (ap suc (length-replace_placeholders params (suc i) ss))
  | inr fixed ↦ rw fixed (ap suc (length-replace_placeholders params i ss))
]

split_slash_some : (s : Text) → (q : Text) × (qs : List Text) × (split_slash s ≡ q ∷ qs)
unfolding split_slash
split_slash_some [] = ([], [], refl)
split_slash_some (c ∷ s) = elim (Bool-cases (nat_eq c b'/')) [
  | inl slash ↦ ([], split_slash s, rw slash refl)
  | inr other ↦ let (q, qs, e) = split_slash_some s in (c ∷ q, qs, rw (e, other) refl)
]

replace_placeholders_some :
    (params : List Text) (i : ℕ) (s : Text) (ss : List Text)
    → (r : Text) × (rs : List Text) × (replace_placeholders params i (s ∷ ss) ≡ r ∷ rs)
unfolding replace_placeholders
replace_placeholders_some params i s ss = elim (Bool-cases (is_placeholder s)) [
  | inl hole ↦
      (get_placeholder_value params i, replace_placeholders params (suc i) ss, rw hole refl)
  | inr fixed ↦ (s, replace_placeholders params i ss, rw fixed refl)
]

split_resource_path-join_slash :
    (q : Text) (qs : List Text)
    → All NoSlash (q ∷ qs)
    → split_resource_path (join_slash ([] ∷ q ∷ qs)) ≡ ok ([] ∷ q ∷ qs)
unfolding split_resource_path join_slash
split_resource_path-join_slash q qs ns = ap ok (split_slash-join_slash [] (q ∷ qs) tt ns)

is_satisfied_by-replace_placeholders :
    (params : List Text) (ss : List Text)
    → is_satisfied_by ss (replace_placeholders params 0 ss) ≡ true
unfolding is_satisfied_by
is_satisfied_by-replace_placeholders params ss =
    rw (length-replace_placeholders params 0 ss, every_matches-replace_placeholders params 0 ss)
      (ground arith)

module _ (params : List Text) (ns : All NoSlash params) (s q : Text) (qs : List Text)
    (e : split_slash s ≡ q ∷ qs) where
  abbrev parts : List Text
  parts = replace_placeholders params 0 ([] ∷ q ∷ qs)

  split_resource_path_lem :
      (c : ℕ) → nat_eq c b'/' ≡ true → split_resource_path (c ∷ s) ≡ ok ([] ∷ q ∷ qs)
  unfolding split_resource_path split_slash
  split_resource_path_lem c slash = rw (slash, e) refl

  split_resource_path-parts : split_resource_path (join_slash parts) ≡ ok parts
  unfolding replace_placeholders is_placeholder
  split_resource_path-parts =
      let (r, rs, f) = replace_placeholders_some params 0 q qs in
      rw f (
        split_resource_path-join_slash r rs (
          rw f at
            (replace_placeholders-NoSlash params 0 (q ∷ qs) ns (rw e at (split_slash-NoSlash s)))))

-- The path that a command's builder makes of a handler's pattern reaches that handler: it is made
-- for every pattern that begins with a slash, and it matches the pattern, whatever values without
-- a slash replace the placeholders.
pub resource_matches-for_resource :
    (pattern : Text) (params : List Text)
    → starts_with b'/' pattern ≡ true
    → All NoSlash params
    → (path : Text) × (for_resource pattern params ≡ ok path)
      × (resource_matches path pattern ≡ ok true)
unfolding for_resource resource_matches
resource_matches-for_resource [] params slash ns = absurd (clash slash)
  where
    clash : false ≡ true → ⊥
    clash e = cc
resource_matches-for_resource (c ∷ s) params slash ns =
    let (q, qs, e) = split_slash_some s in
    let pattern_parts = split_resource_path_lem params ns s q qs e c slash in
    let path_parts = split_resource_path-parts params ns s q qs e in
    (
      join_slash (parts params ns s q qs e),
      rw (pattern_parts, path_parts) refl,
      rw (path_parts, pattern_parts, is_satisfied_by-replace_placeholders params ([] ∷ q ∷ qs))
          refl,
    )
