-- ===== src/Commands/Headers/Laws.antt =====
-- packages/commands/common/correlate-message-headers.ts, by the names that headers have in a reply.
use Prim.Native.String.{◌++◌}
use text.Mathlib.Text.{starts_with}
use text.Mathlib.TextBridge.{IsPrefix}
use text.Mathlib.TextEquality.{eq_iff, starts_with_iff}
use text.Mathlib.TextPositions.{eq_refl, slice-append_right, len-append, starts_with-append}
use text.Mathlib.TextLemmas.{append_cancel_left}
use nest_convoy.Prelude.{
  String, true, false, ◌≡◌, refl, sym, ap, ◌∙◌, some, [], ◌∷◌, filter, map, Bool-cases, inl, inr,
  ◌==◌,
}
use nest_convoy.Prelude.Result.{ok}
use nest_convoy.Messaging.Headers.{MessageHeaders, get, set, from_entries}
use nest_convoy.Messaging.Headers.Laws.{
  IsMap, Absent, get-set, get-set_self, get-from_entries, set-IsMap, from_entries-IsMap,
}
use nest_convoy.Messaging.Message.{id_header}
use nest_convoy.Commands.Headers.{
  command_header_prefix, command_reply_prefix, header_starts_with_command_prefix, in_reply,
  in_reply_to, after_prefix, in_reply_all, id_text, correlate_message_headers,
}

-- A command header is the prefix and what follows it.
after_prefix_lem :
    (k : String)
    → header_starts_with_command_prefix k ≡ true
    → command_header_prefix ++ after_prefix k ≡ k
unfolding header_starts_with_command_prefix
after_prefix_lem k h = go ((starts_with_iff k command_header_prefix).0 h)
  where
    go : IsPrefix command_header_prefix k → command_header_prefix ++ after_prefix k ≡ k
    go (u, e) = rw (← e) (
        ap (◌++◌ command_header_prefix)
          (rw (len-append command_header_prefix u) (slice-append_right command_header_prefix u)))

-- The name of a command header in a reply.
abbrev pub renamed : String → String
renamed k = command_reply_prefix ++ after_prefix k

pub in_reply_lem :
    (k : String) → header_starts_with_command_prefix k ≡ true → in_reply k ≡ ok (renamed k)
unfolding in_reply
in_reply_lem k h = unfold header_starts_with_command_prefix in rw h

-- Different command headers have different names in the reply.
renamed_inj :
    (j k : String)
    → header_starts_with_command_prefix j ≡ true
    → header_starts_with_command_prefix k ≡ true
    → renamed j ≡ renamed k
    → j ≡ k
renamed_inj j k hj hk e =
    sym (after_prefix_lem j hj)
    ∙ ap (◌++◌ command_header_prefix) (append_cancel_left command_reply_prefix _ _ e)
    ∙ after_prefix_lem k hk

renamed-eq :
    (j k : String)
    → header_starts_with_command_prefix j ≡ true
    → header_starts_with_command_prefix k ≡ true
    → (renamed j == renamed k) ≡ (j == k)
renamed-eq j k hj hk = elim (Bool-cases (j == k)) [
  | inl same ↦ rw (same, (eq_iff j k).0 same) (eq_refl (renamed k))
  | inr other ↦ elim (Bool-cases (renamed j == renamed k)) [
    | inl clash ↦
        absurd
          (false_true (sym other ∙ (eq_iff j k).1 (renamed_inj j k hj hk ((eq_iff _ _).0 clash))))
    | inr apart ↦ apart ∙ sym other
  ]
]
  where
    false_true : false ≡ true → ⊥
    false_true e = cc

-- The command headers of a message, and the same under their names in a reply.
abbrev pub command_headers : MessageHeaders → MessageHeaders
command_headers = filter λ e. header_starts_with_command_prefix e.0

abbrev rename_all : MessageHeaders → MessageHeaders
rename_all = map λ e. (renamed e.0, e.1)

abbrev AllCommand : MessageHeaders → Type 0
AllCommand [] = Unit {0}
AllCommand ((k, v) ∷ h) = (header_starts_with_command_prefix k ≡ true) × AllCommand h

command_headers-AllCommand : (h : MessageHeaders) → AllCommand (command_headers h)
command_headers-AllCommand [] = tt
command_headers-AllCommand ((k, v) ∷ h) = elim (Bool-cases (header_starts_with_command_prefix k)) [
  | inl is ↦ rw is (is, command_headers-AllCommand h)
  | inr other ↦ rw other (command_headers-AllCommand h)
]

in_reply_all_lem : (h : MessageHeaders) → AllCommand h → in_reply_all h ≡ ok (rename_all h)
unfolding in_reply_all
in_reply_all_lem [] a = refl
in_reply_all_lem ((k, v) ∷ h) (p, a) = rw (in_reply_lem k p, in_reply_all_lem h a)

get-rename_all :
    (k : String) (h : MessageHeaders)
    → header_starts_with_command_prefix k ≡ true
    → AllCommand h
    → get (renamed k) (rename_all h) ≡ get k h
unfolding get
get-rename_all k [] p a = refl
get-rename_all k ((j, v) ∷ h) p (q, a) = rw (renamed-eq j k q p, get-rename_all k h p a)

rename_all-Absent :
    (k : String) (h : MessageHeaders)
    → header_starts_with_command_prefix k ≡ true
    → AllCommand h
    → Absent k h
    → Absent (renamed k) (rename_all h)
rename_all-Absent k [] p a b = tt
rename_all-Absent k ((j, v) ∷ h) p (q, a) (ne, b) =
    (renamed-eq j k q p ∙ ne, rename_all-Absent k h p a b)

rename_all-IsMap : (h : MessageHeaders) → AllCommand h → IsMap h → IsMap (rename_all h)
rename_all-IsMap [] a m = tt
rename_all-IsMap ((k, v) ∷ h) (p, a) (b, m) = (rename_all-Absent k h p a b, rename_all-IsMap h a m)

command_headers-Absent :
    (k : String) (h : MessageHeaders) → Absent k h → Absent k (command_headers h)
command_headers-Absent k [] b = tt
command_headers-Absent k ((j, v) ∷ h) (ne, b) =
    elim (Bool-cases (header_starts_with_command_prefix j)) [
      | inl is ↦ rw is (ne, command_headers-Absent k h b)
      | inr other ↦ rw other (command_headers-Absent k h b)
    ]

command_headers-IsMap : (h : MessageHeaders) → IsMap h → IsMap (command_headers h)
command_headers-IsMap [] m = tt
command_headers-IsMap ((j, v) ∷ h) (b, m) =
    elim (Bool-cases (header_starts_with_command_prefix j)) [
      | inl is ↦ rw is (command_headers-Absent j h b, command_headers-IsMap h m)
      | inr other ↦ rw other (command_headers-IsMap h m)
    ]

get-command_headers :
    (k : String) (h : MessageHeaders)
    → header_starts_with_command_prefix k ≡ true
    → get k (command_headers h) ≡ get k h
unfolding get
get-command_headers k [] p = refl
get-command_headers k ((j, v) ∷ h) p = elim (Bool-cases (header_starts_with_command_prefix j)) [
  | inl is ↦ rw (is, get, get-command_headers k h p)
  | inr other ↦ elim (Bool-cases (j == k)) [
    | inl same ↦
        absurd (clash (sym other ∙ ap header_starts_with_command_prefix ((eq_iff j k).0 same) ∙ p))
    | inr apart ↦ rw (other, apart) (get-command_headers k h p)
  ]
]
  where
    clash : false ≡ true → ⊥
    clash e = cc

-- The headers that `correlateMessageHeaders` returns.
abbrev pub correlated : MessageHeaders → MessageHeaders
correlated h =
    set in_reply_to (id_text (get id_header h)) (from_entries (rename_all (command_headers h)))

pub correlate_message_headers_total :
    (h : MessageHeaders) → correlate_message_headers h ≡ ok (correlated h)
unfolding correlate_message_headers
correlate_message_headers_total h =
    rw (in_reply_all_lem (command_headers h) (command_headers-AllCommand h))

in_reply_to-ne-renamed : (k : String) → (in_reply_to == renamed k) ≡ false
in_reply_to-ne-renamed k = elim (Bool-cases (in_reply_to == renamed k)) [
  | inl same ↦ absurd (
      clash
        (rw (← (eq_iff _ _).0 same) at (starts_with-append command_reply_prefix (after_prefix k))))
  | inr other ↦ other
]
  where
    clash : starts_with in_reply_to command_reply_prefix ≡ true → ⊥
    clash e = cc

pub get-correlated :
    (k : String) (h : MessageHeaders)
    → IsMap h
    → header_starts_with_command_prefix k ≡ true
    → get (renamed k) (correlated h) ≡ get k h
get-correlated k h m p =
    let commands = command_headers-AllCommand h in
    rw (get-set, in_reply_to-ne-renamed k)
      (get-from_entries (renamed k) (rename_all (command_headers h))
          (rename_all-IsMap _ commands (command_headers-IsMap h m))
        ∙ get-rename_all k (command_headers h) p commands
        ∙ get-command_headers k h p)

pub get-correlated-in_reply_to :
    (h : MessageHeaders) → get in_reply_to (correlated h) ≡ some (id_text (get id_header h))
get-correlated-in_reply_to h = get-set_self in_reply_to _ _

pub correlated-IsMap : (h : MessageHeaders) → IsMap (correlated h)
correlated-IsMap h = set-IsMap _ _ _ (from_entries-IsMap _)

-- Correlation never throws on the headers of a message. Each command header stands in what it
-- returns under its name in a reply and with its value, and none is there that the message lacks;
-- the identifier of the message stands there as that of the message that is answered.
pub correlate_message_headers_lem :
    (k : String) (h : MessageHeaders)
    → IsMap h
    → header_starts_with_command_prefix k ≡ true
    → (c : MessageHeaders) × (correlate_message_headers h ≡ ok c)
      × (get (renamed k) c ≡ get k h)
      × (get in_reply_to c ≡ some (id_text (get id_header h)))
correlate_message_headers_lem k h m p = (
  correlated h,
  correlate_message_headers_total h,
  get-correlated k h m p,
  get-correlated-in_reply_to h,
)
