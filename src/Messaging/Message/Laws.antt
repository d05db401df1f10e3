-- ===== src/Messaging/Message/Laws.antt =====
-- The headers of packages/messaging/common/message.ts, with the exceptions of exceptions.ts.
use nest_convoy.Prelude.{
  String, ◌≡◌, refl, ℕ, zero, suc, arith, Bool-cases, inl, inr, ◌==◌, true, false, if◌then◌else◌,
}
use nest_convoy.Prelude.Result.{ok, err, ◌>>◌}
use nest_convoy.Common.Exceptions.{missing_message_header, range_error}
use nest_convoy.Messaging.Headers.Laws.{get-set}
use nest_convoy.Messaging.Message.{
  Message, type_header, get_header, required_header_at, get_required_header, set_header,
}

required_type_overflows :
    {P : Type 0} (depth : ℕ) (m : Message P)
    → (get_header type_header m == "") ≡ true
    → required_header_at depth type_header m ≡ err range_error
unfolding required_header_at
required_type_overflows zero m e = refl
required_type_overflows (suc depth) m e = rw (e, required_type_overflows depth m e)

required_type_found :
    {P : Type 0} (depth : ℕ) (m : Message P)
    → (get_header type_header m == "") ≡ false
    → required_header_at (suc depth) type_header m ≡ ok (get_header type_header m)
unfolding required_header_at
required_type_found depth m e = rw e

required_header_at_step :
    {P : Type 0} (depth : ℕ) (name : String) (m : Message P)
    → required_header_at (suc depth) name m ≡ (
        if get_header name m == ""
        then (required_header_at depth type_header m >> err (missing_message_header name))
        else ok (get_header name m))
unfolding required_header_at
required_header_at_step depth name m = refl

-- A header that is there is returned. A missing one is reported by its name where the message has
-- a type. Where it has none, the report calls itself until the stack is used up, however deep it
-- is: with room for two calls or more the outcome is that of `get_required_header`.
pub required_header_at_lem :
    {P : Type 0} (depth : ℕ) (name : String) (m : Message P)
    → required_header_at (suc (suc depth)) name m ≡ get_required_header name m
unfolding get_required_header
required_header_at_lem depth name m = elim (Bool-cases (get_header type_header m == "")) [
  | inl missing ↦ rw (
    required_header_at_step (suc depth) name m,
    required_type_overflows (suc depth) m missing,
    missing,
  )
  | inr typed ↦
      rw (required_header_at_step (suc depth) name m, required_type_found depth m typed, typed)
]

-- Setting a header does not hide another one.
pub get_header-set :
    {P : Type 0} (j k v : String) (m : Message P)
    → get_header j (set_header k v m) ≡ (if k == j then v else get_header j m)
unfolding get_header set_header
get_header-set j k v m = ground (arith, get-set j k v m.headers)
