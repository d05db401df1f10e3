-- ===== src/Messaging/Headers.antt =====
-- packages/messaging/common/message-headers.ts. A `Map<string, string>` is its list of entries in
-- the order of insertion; a key stands once. Header values are the texts that `String(value)` gives.
pub mod Laws
use nest_convoy.Prelude.{
  String, Bool, true, false, Option, none, some, List, [], ◌∷◌, ◌++◌, if◌then◌else◌, ◌==◌,
}

abbrev pub MessageHeaders : Type 0
MessageHeaders = List (String × String)

unfoldable pub get : String → MessageHeaders → Option String
get k [] = none
get k ((j, v) ∷ h) = if j == k then some v else get k h

-- `Map.set`: a known key keeps its place.
unfoldable pub set : String → String → MessageHeaders → MessageHeaders
set k v [] = (k, v) ∷ []
set k v ((j, w) ∷ h) = if j == k then (k, v) ∷ h else (j, w) ∷ set k v h

unfoldable pub delete : String → MessageHeaders → MessageHeaders
delete k [] = []
delete k ((j, w) ∷ h) = if j == k then h else (j, w) ∷ delete k h

unfoldable pub has : String → MessageHeaders → Bool
has k h = elim (get k h) [ none ↦ false | some v ↦ true ]

-- `for (const [k, v] of entries) map.set(k, v)`.
unfoldable pub set_all : List (String × String) → MessageHeaders → MessageHeaders
set_all [] h = h
set_all ((k, v) ∷ es) h = set_all es (set k v h)

-- `new MessageHeaders(entries)`, and `fromRecord` through `Object.entries`.
unfoldable pub from_entries : List (String × String) → MessageHeaders
from_entries es = set_all es []

-- `new MessageHeaders([...a, ...b])`.
unfoldable pub merge : MessageHeaders → MessageHeaders → MessageHeaders
merge a b = from_entries (a ++ b)
