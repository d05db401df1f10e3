-- ===== src/Core/Wiring.antt =====
-- Which dispatchers packages/core/initializer.service.ts subscribes for a decorated class.
use nest_convoy.Prelude.{
  Option, none, some, inr, inl, Bool-cases, String, ◌==◌, ◌≡◌, refl, List, [], All, ◌∷◌,
}
use nest_convoy.Prelude.Result.{ok}
use nest_convoy.Prelude.Effect.{all_each}
use nest_convoy.Core.{
  some, Option, none, HandlerMethod, HandlerClass, bare_class, command_handlers,
  DispatcherFactories, register_commands, on_module_init,
}

-- Classes that the decorator of plain commands alone was applied to.
abbrev pub PlainClasses : {W P : Type 0} → List (HandlerClass W P) → Type 0
PlainClasses {W} {P} = All (λ c.
    (channel : String) × (name : String) × (methods : List (HandlerMethod W P)) × (c
      ≡ command_handlers channel (bare_class name methods)))

plain_nothing :
    {S W P : Type 0} (factories : DispatcherFactories S W P) (channel name : String)
    (methods : List (HandlerMethod W P)) (s : S)
    → register_commands factories (command_handlers channel (bare_class name methods)) s
      ≡ (ok tt, s)
unfolding register_commands command_handlers
plain_nothing factories channel name methods s = elim (Bool-cases (channel == "")) [
  | inl unnamed ↦ rw unnamed refl
  | inr named ↦ rw named refl
]

all_plain_nothing :
    {S W P : Type 0} (factories : DispatcherFactories S W P) (commands : List (HandlerClass W P))
    (s : S)
    → PlainClasses commands
    → all_each (register_commands factories) commands s ≡ (ok tt, s)
unfolding all_each
all_plain_nothing factories [] s plain = refl
all_plain_nothing factories (c ∷ cs) s ((channel, name, methods, e), plain) =
    rw (e, plain_nothing factories channel name methods s) (all_plain_nothing factories cs s plain)

-- Classes with the decorator of plain commands alone are never subscribed.
pub on_module_init-plain :
    {S W P : Type 0} (factories : DispatcherFactories S W P) (commands : List (HandlerClass W P))
    (s : S)
    → PlainClasses commands
    → on_module_init factories commands [] s ≡ (ok tt, s)
unfolding on_module_init all_each
on_module_init-plain factories commands s plain =
    rw (all_plain_nothing factories commands s plain) refl
