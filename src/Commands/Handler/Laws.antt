-- ===== src/Commands/Handler/Laws.antt =====
-- The choice of a handler: packages/common/handlers.ts with packages/commands/consumer/
-- command-handler.ts.
use nest_convoy.Prelude.{
  ◌≡◌, refl, ap, Bool, true, false, none, some, List, [], ◌∷◌, ◌++◌, All, if◌then◌else◌,
}
use nest_convoy.Prelude.Result.{Result, ok, err, ◌>>=◌}
use nest_convoy.Messaging.Message.{Message}
use nest_convoy.Commands.Handler.{CommandHandler, handles, find_target_method}

module _ {W P : Type 0} (m : Message P) where
  abbrev Passed : List (CommandHandler W P) → Type 0
  Passed = All (λ h. handles h m ≡ ok false)

  abbrev pub Chosen : List (CommandHandler W P) → CommandHandler W P → Type 0
  Chosen handlers h =
      (before : List (CommandHandler W P)) × (after : List (CommandHandler W P)) × (handlers
        ≡ before ++ (h ∷ after))
      × (handles h m ≡ ok true)
      × Passed before

  -- The handler that is found takes the message, and it is the first of the table that does: those
  -- before it were asked and did not.
  pub find_target_method_lem :
      (handlers : List (CommandHandler W P)) (h : CommandHandler W P)
      → find_target_method handlers m ≡ ok (some h)
      → Chosen handlers h
  unfolding find_target_method
  find_target_method_lem [] h e = absurd (no_value e)
    where
      no_value : ok none ≡ ok (some h) → ⊥
      no_value q = cc
  find_target_method_lem (g ∷ handlers) h e =
      by_answer (find_target_method_lem handlers h) (handles g m) refl e
    where
      first : ok (some g) ≡ ok (some h) → g ≡ h
      first q = cc

      later : handles g m ≡ ok false → Chosen handlers h → Chosen (g ∷ handlers) h
      later a (before, after, split, taken, passed) =
          (g ∷ before, after, ap (λ l. g ∷ l) split, taken, (a, passed))

      by_answer :
          (find_target_method handlers m ≡ ok (some h) → Chosen handlers h)
          → (r : Result Bool) → handles g m ≡ r
          → (r >>= λ taken. if taken then ok (some g) else find_target_method handlers m)
            ≡ ok (some h)
          → Chosen (g ∷ handlers) h
      by_answer ih (ok true) a q =
          ([], handlers, ap (λ x. x ∷ handlers) (first q), rw (← first q) a, tt)
      by_answer ih (ok false) a q = later a (ih q)
      by_answer ih (err x) a q = absurd (no_value q)
        where
          no_value : err x ≡ ok (some h) → ⊥
          no_value q = cc
