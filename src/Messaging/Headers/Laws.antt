-- ===== src/Messaging/Headers/Laws.antt =====
-- The map of packages/messaging/common/message-headers.ts: look-ups after writes.
use text.Mathlib.TextEquality.{eq_iff}
use text.Mathlib.TextPositions.{eq_refl}
use nest_convoy.Prelude.{
  String, ◌≡◌, refl, ◌∙◌, false, Option, none, some, List, [], ◌∷◌, ◌++◌, if◌then◌else◌, ◌==◌,
  arith, Bool-cases, inl, inr,
}
use nest_convoy.Messaging.Headers.{MessageHeaders, get, set, set_all, from_entries, merge}

pub get-set :
    (j k v : String) (h : MessageHeaders) → get j (set k v h) ≡ (if k == j then some v else get j h)
unfolding get set
get-set j k v [] = refl
get-set j k v ((i, w) ∷ h) = ground (arith, eq_iff k j, eq_iff i k, eq_iff i j, get-set j k v h)

pub get-set_self : (k v : String) (h : MessageHeaders) → get k (set k v h) ≡ some v
get-set_self k v h = simp (get-set, eq_refl)

-- No key stands twice.
abbrev pub Absent : String → MessageHeaders → Type 0
Absent k [] = Unit {0}
Absent k ((j, w) ∷ h) = ((j == k) ≡ false) × Absent k h

abbrev pub IsMap : MessageHeaders → Type 0
IsMap [] = Unit {0}
IsMap ((k, v) ∷ h) = Absent k h × IsMap h

pub get_of_Absent : (k : String) (h : MessageHeaders) → Absent k h → get k h ≡ none
unfolding get
get_of_Absent k [] a = refl
get_of_Absent k ((j, w) ∷ h) (e, a) = rw e (get_of_Absent k h a)

set-Absent :
    (i k v : String) (h : MessageHeaders) → (k == i) ≡ false → Absent i h → Absent i (set k v h)
unfolding set
set-Absent i k v [] ne a = (ne, tt)
set-Absent i k v ((j, w) ∷ h) ne (e, a) = elim (Bool-cases (j == k)) [
  | inl same ↦ rw same (ne, a)
  | inr other ↦ rw other (e, set-Absent i k v h ne a)
]

pub set-IsMap : (k v : String) (h : MessageHeaders) → IsMap h → IsMap (set k v h)
unfolding set
set-IsMap k v [] m = (tt, tt)
set-IsMap k v ((j, w) ∷ h) (a, m) = elim (Bool-cases (j == k)) [
  | inl same ↦ rw (same, ← (eq_iff j k).0 same) (a, m)
  | inr other ↦ rw other (set-Absent j k v h (flip other) a, set-IsMap k v h m)
]
  where
    flip : (j == k) ≡ false → (k == j) ≡ false
    flip o = ground (arith, eq_iff j k, eq_iff k j)

pub set_all-IsMap :
    (es : List (String × String)) (h : MessageHeaders) → IsMap h → IsMap (set_all es h)
unfolding set_all
set_all-IsMap [] h m = m
set_all-IsMap ((k, v) ∷ es) h m = set_all-IsMap es (set k v h) (set-IsMap k v h m)

-- Every `Map` that a constructor builds has distinct keys.
pub from_entries-IsMap : (es : List (String × String)) → IsMap (from_entries es)
unfolding from_entries
from_entries-IsMap es = set_all-IsMap es [] tt

-- A look-up after a series of writes: the last write of the key wins. Over distinct keys that is
-- the only one.
abbrev pub or_else : Option String → Option String → Option String
or_else (some v) o = some v
or_else none o = o

pub get-set_all :
    (j : String) (es h : MessageHeaders)
    → IsMap es
    → get j (set_all es h) ≡ or_else (get j es) (get j h)
unfolding set_all get
get-set_all j [] h m = refl
get-set_all j ((k, v) ∷ es) h (a, m) = elim (Bool-cases (k == j)) [
  | inl same ↦
      let absent : get j es ≡ none = rw (← (eq_iff k j).0 same) (get_of_Absent k es a) in
      ground (arith, get-set_all j es (set k v h) m, get-set j k v h, absent)
  | inr other ↦ ground (arith, get-set_all j es (set k v h) m, get-set j k v h)
]

set_all-append :
    (xs ys : List (String × String)) (h : MessageHeaders)
    → set_all (xs ++ ys) h ≡ set_all ys (set_all xs h)
unfolding set_all
set_all-append [] ys h = refl
set_all-append ((k, v) ∷ xs) ys h = set_all-append xs ys (set k v h)

-- In a merge the right map wins.
pub get-merge :
    (j : String) (a b : MessageHeaders)
    → IsMap a
    → IsMap b
    → get j (merge a b) ≡ or_else (get j b) (get j a)
unfolding merge from_entries
get-merge j a b ma mb =
    rw (set_all-append a b [], get-set_all j b (set_all a []) mb, get-set_all j a [] ma)
      (ground (arith, get_nil j))
  where
    get_nil : (k : String) → get k [] ≡ none
    get_nil k = unfold get in refl

pub merge-IsMap : (a b : MessageHeaders) → IsMap (merge a b)
unfolding merge
merge-IsMap a b = from_entries-IsMap (a ++ b)

pub get-from_entries :
    (j : String) (es : MessageHeaders) → IsMap es → get j (from_entries es) ≡ get j es
unfolding from_entries
get-from_entries j es m = get-set_all j es [] m ∙ or_else_nil (get j es)
  where
    or_else_nil : (o : Option String) → or_else o (get j []) ≡ o
    or_else_nil none = unfold get in refl
    or_else_nil (some v) = refl
