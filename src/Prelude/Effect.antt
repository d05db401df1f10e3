-- ===== src/Prelude/Effect.antt =====
-- Code that changes a state `S` and may throw: the state reached when it throws is kept.
use mathlib.Core.Path.{◌∙◌, ◌≡◌, refl, ap}
use mathlib.Core.Bool.{Bool, true, false}
use mathlib.Core.List.{List, [], ◌∷◌}
use nest_convoy.Common.Exceptions.{Exception}
use nest_convoy.Prelude.Result.{Result, ok, err}

abbrev pub M : Type 0 → Type 0 → Type 0
M S A = S → Result A × S

abbrev pub resume : {S A B : Type 0} → (A → M S B) → Result A → S → Result B × S
resume f (ok a) s = f a s
resume f (err e) s = (err e, s)

infixl 5 ◌>>=◌ ◌>>◌
abbrev pub ◌>>=◌ : {S A B : Type 0} → M S A → (A → M S B) → M S B
◌>>=◌ m f s = resume f (m s).0 (m s).1

abbrev pub ◌>>◌ : {S A B : Type 0} → M S A → M S B → M S B
m >> k = m >>= λ _. k

abbrev pub pure : {S A : Type 0} → A → M S A
pure a s = (ok a, s)

abbrev pub throw : {S A : Type 0} → Exception → M S A
throw e s = (err e, s)

-- A computation that reads no state.
abbrev pub lift : {S A : Type 0} → Result A → M S A
lift r s = (r, s)

abbrev pub get : {S : Type 0} → M S S
get s = (ok s, s)

abbrev pub modify : {S : Type 0} → (S → S) → M S (Unit {0})
modify f s = (ok tt, f s)

abbrev pub when : {S : Type 0} → Bool → M S (Unit {0}) → M S (Unit {0})
when true m = m
when false m = pure tt

-- `for (const x of xs) await f(x)`.
unfoldable pub for_each : {S A : Type 0} → (A → M S (Unit {0})) → List A → M S (Unit {0})
for_each f [] = pure tt
for_each f (x ∷ xs) = f x >> for_each f xs

-- Inversion of a computation that returned.
pub >>=-eq-ok :
    {S A B : Type 0} (m : M S A) (f : A → M S B) (s : S) {b : B} {s' : S}
    → (m >>= f) s ≡ (ok b, s')
    → (a : A) × (s₁ : S) × (m s ≡ (ok a, s₁)) × (f a s₁ ≡ (ok b, s'))
>>=-eq-ok {S} {A} {B} m f s {b} {s'} = go (m s) refl
  where
    go :
        (r : Result A × S)
        → m s ≡ r
        → resume f r.0 r.1 ≡ (ok b, s')
        → (a : A) × (s₁ : S) × (m s ≡ (ok a, s₁)) × (f a s₁ ≡ (ok b, s'))
    go (ok a, s₁) e h = (a, s₁, e, h)
    go (err x, s₁) e h = absurd (no_value (ap (λ (p : Result B × S). p.0) h))
      where
        no_value : err x ≡ ok b → ⊥
        no_value q = cc

pub pure-eq-ok : {S A : Type 0} (a : A) (s : S) {b : A} {s' : S} → pure a s ≡ (ok b, s') → a ≡ b
pure-eq-ok a s h = cc

-- `try { m } catch (e) { handler(e) }`.
abbrev pub recover : {S A : Type 0} → (Exception → M S A) → Result A → S → Result A × S
recover h (ok a) s = (ok a, s)
recover h (err e) s = h e s

abbrev pub try_catch : {S A : Type 0} → M S A → (Exception → M S A) → M S A
try_catch m h s = recover h (m s).0 (m s).1

-- `for` over a list, with the values that it yields.
unfoldable pub map_each : {S A B : Type 0} → (A → M S B) → List A → M S (List B)
map_each f [] = pure []
map_each f (x ∷ xs) = do y ← f x; ys ← map_each f xs; pure (y ∷ ys)

-- Two continuations that agree on what a computation returns.
pub >>=-cong :
    {S A B : Type 0} (m : M S A) (f f' : A → M S B) (s : S)
    → ((a : A) (s₁ : S) → m s ≡ (ok a, s₁) → f a s₁ ≡ f' a s₁)
    → (m >>= f) s ≡ (m >>= f') s
>>=-cong {S} {A} {B} m f f' s h = go (m s) refl
  where
    go : (r : Result A × S) → m s ≡ r → resume f r.0 r.1 ≡ resume f' r.0 r.1
    go (ok a, s₁) e = h a s₁ e
    go (err x, s₁) e = refl

pub ok-err :
    {S A : Type 0} (a : A) (x : Exception) (s s' : S) → pure {S = S} {A = A} a s ≡ throw x s' → ⊥
ok-err a x s s' h = cc

pub err-injective :
    {S A : Type 0} (x y : Exception) (s s' : S) → throw {S = S} {A = A} x s ≡ throw y s' → x ≡ y
err-injective x y s s' h = cc

pub state-eq : {S A : Type 0} (r : Result A × S) (a : Result A) (s : S) → r ≡ (a, s) → r.1 ≡ s
state-eq r a s h = ap (λ (p : Result _ × _). p.1) h

-- What a computation leaves as it was, whether it returns or throws.
module _ {S V : Type 0} (view : S → V) where
  abbrev pub Keeps : {A : Type 0} → M S A → Type 0
  Keeps m = (s : S) → view (m s).1 ≡ view s

  pub >>=-Keeps :
      {A B : Type 0} (m : M S A) (f : A → M S B)
      → Keeps m
      → ((a : A) → Keeps (f a))
      → Keeps (m >>= f)
  >>=-Keeps {A} {B} m f hm hf s = go (m s) (hm s)
    where
      go : (r : Result A × S) → view r.1 ≡ view s → view (resume f r.0 r.1).1 ≡ view s
      go (ok a, s₁) e = hf a s₁ ∙ e
      go (err x, s₁) e = e

  pub map_each-Keeps :
      {A B : Type 0} (f : A → M S B) (xs : List A) → ((a : A) → Keeps (f a)) → Keeps (map_each f xs)
  unfolding map_each
  map_each-Keeps f [] h s = refl
  map_each-Keeps f (x ∷ xs) h s =
      >>=-Keeps (f x) _ (h x)
        (λ y. >>=-Keeps (map_each f xs) _ (map_each-Keeps f xs h) (λ ys s. refl)) s

  pub when-Keeps : (b : Bool) (m : M S (Unit {0})) → Keeps m → Keeps (when b m)
  when-Keeps true m h s = h s
  when-Keeps false m h s = refl

pub >>=-step :
    {S A B : Type 0} (m : M S A) (f : A → M S B) (s s' : S) (r : Result A)
    → m s ≡ (r, s')
    → (m >>= f) s ≡ resume f r s'
>>=-step {S} {A} m f s s' r h = ap (λ (p : Result A × S). resume f p.0 p.1) h

pub >>=-assoc :
    {S A B C : Type 0} (m : M S A) (f : A → M S B) (g : B → M S C) (s : S)
    → ((m >>= f) >>= g) s ≡ (m >>= λ a. f a >>= g) s
>>=-assoc {S} {A} {B} {C} m f g s = go (m s)
  where
    go :
        (r : Result A × S)
        → resume g (resume f r.0 r.1).0 (resume f r.0 r.1).1 ≡ resume (λ a. f a >>= g) r.0 r.1
    go (ok a, s₁) = refl
    go (err x, s₁) = refl

-- `await Promise.all(xs.map(async x => ...))`: what one throws does not stop the others, and the
-- first exception is thrown on.
abbrev pub first_error :
    {S : Type 0} → Result (Unit {0}) → Result (Unit {0}) × S → Result (Unit {0}) × S
first_error (ok u) r = r
first_error (err e) r = (err e, r.1)

unfoldable pub all_each : {S A : Type 0} → (A → M S (Unit {0})) → List A → M S (Unit {0})
all_each f [] s = pure tt s
all_each f (x ∷ xs) s = first_error (f x s).0 (all_each f xs (f x s).1)

-- A promise that nobody waits for.
abbrev pub floating : {S : Type 0} → M S (Unit {0}) → M S (Unit {0})
floating m s = (ok tt, (m s).1)

pub all_each-Keeps :
    {S A V : Type 0} (view : S → V) (f : A → M S (Unit {0})) (xs : List A)
    → ((a : A) → Keeps view (f a))
    → Keeps view (all_each f xs)
unfolding all_each
all_each-Keeps view f [] h s = refl
all_each-Keeps {S} view f (x ∷ xs) h s =
    go (f x s).0 (all_each f xs (f x s).1) ∙ all_each-Keeps view f xs h (f x s).1 ∙ h x s
  where
    go : (r : Result (Unit {0})) (t : Result (Unit {0}) × S) → view (first_error r t).1 ≡ view t.1
    go (ok u) t = refl
    go (err e) t = refl
