-- ===== src/Events/Aggregates.antt =====
-- packages/events/aggregate: aggregates.ts and missing-apply-event-method-strategy.ts. An aggregate
-- is an object that the application's methods may change in place: `A` is the reference to it, and
-- `S` the state that holds the objects. The event that a `MissingApplyMethodException` carries, for
-- a strategy to look at, is no part of the exception here.
use nest_convoy.Prelude.{sym, ◌∙◌, Bool, true, false, List, [], ◌∷◌, ◌++◌, if◌then◌else◌, ◌≡◌, refl}
use nest_convoy.Prelude.Result.{Result, ok, err}
use nest_convoy.Prelude.Effect.{
  state-eq, pure-eq-ok, ok-err, resume, M, ◌>>=◌, ◌>>◌, pure, throw, try_catch,
}
use nest_convoy.Common.Exceptions.{Exception, missing_apply_method}

pub record MissingApplyEventMethodStrategy (S A : Type 0) : Type 0 where
  pub supports : A → Exception → Bool
  pub handle : A → Exception → M S (Unit {0})

-- What the application's classes give: whether an object has a method `applyEvent`, the method, and
-- a new object of the class (`plainToClass(aggregateType, {})`).
pub record AggregateMethods (S A E : Type 0) : Type 0 where
  pub has_apply_event : A → Bool
  pub apply_event : A → E → M S A

abbrev pub is_missing_apply : Exception → Bool
is_missing_apply missing_apply_method = true
is_missing_apply _ = false

module _ {S A : Type 0} where
  abbrev pub default_strategy : MissingApplyEventMethodStrategy S A
  default_strategy = record { supports = λ a e. true; handle = λ a e. throw e }

  -- `strategies.find(s => s.supports(...))`, or the default strategy.
  unfoldable pub first_strategy :
      List (MissingApplyEventMethodStrategy S A)
      → A
      → Exception
      → MissingApplyEventMethodStrategy S A
  first_strategy [] a e = default_strategy
  first_strategy (s ∷ ss) a e = if s.supports a e then s else first_strategy ss a e

  abbrev any_supports : List (MissingApplyEventMethodStrategy S A) → A → Exception → Bool
  any_supports [] a e = false
  any_supports (s ∷ ss) a e = if s.supports a e then true else any_supports ss a e

  unfoldable pub composite_strategy :
      List (MissingApplyEventMethodStrategy S A) → MissingApplyEventMethodStrategy S A
  unfolding first_strategy
  composite_strategy ss = record {
    supports = any_supports ss;
    handle = λ a e. (first_strategy ss a e).handle a e;
  }

module _ {S A E : Type 0} (methods : AggregateMethods S A E)
    (strategy : MissingApplyEventMethodStrategy S A) where
  -- The `try` of the loop: the aggregate that the method gives.
  abbrev pub call_apply_event : A → E → M S A
  call_apply_event a e =
      if methods.has_apply_event a then methods.apply_event a e else throw missing_apply_method

  -- The `catch`: whatever else was thrown is dropped.
  abbrev pub catch_apply : A → Exception → M S A
  catch_apply a x = if is_missing_apply x then strategy.handle a x >> pure a else pure a

  abbrev pub apply_one : A → E → M S A
  apply_one a e = try_catch (call_apply_event a e) (catch_apply a)

  unfoldable pub apply_events : A → List E → M S A
  apply_events a [] = pure a
  apply_events a (e ∷ es) = apply_one a e >>= λ a'. apply_events a' es

  abbrev pub recreate_aggregate : M S A → List E → M S A
  recreate_aggregate new es = new >>= λ a. apply_events a es

module _ {S A E : Type 0} (methods : AggregateMethods S A E)
    (strategy : MissingApplyEventMethodStrategy S A) where
  -- Replaying a history in two parts.
  apply_events-append :
      (before after : List E) (a a₁ : A) (s s₁ : S)
      → apply_events methods strategy a before s ≡ (ok a₁, s₁)
      → apply_events methods strategy a (before ++ after) s
        ≡ apply_events methods strategy a₁ after s₁
  unfolding apply_events
  apply_events-append [] after a a₁ s s₁ h =
      rw (pure-eq-ok a s h, state-eq (pure a s) (ok a₁) s₁ h) refl
  apply_events-append (e ∷ es) after a a₁ s s₁ h =
      go (λ a' s'. apply_events-append es after a' a₁ s' s₁) (apply_one methods strategy a e s) h
    where
      go :
          ((a' : A) (s' : S)
            → apply_events methods strategy a' es s' ≡ (ok a₁, s₁)
            → apply_events methods strategy a' (es ++ after) s'
              ≡ apply_events methods strategy a₁ after s₁)
          → (r : Result A × S)
          → resume (λ a'. apply_events methods strategy a' es) r.0 r.1 ≡ (ok a₁, s₁)
          → resume (λ a'. apply_events methods strategy a' (es ++ after)) r.0 r.1
            ≡ apply_events methods strategy a₁ after s₁
      go ih (ok a', s') q = ih a' s' q
      go ih (err x, s') q = absurd (ok-err a₁ x s₁ s' (sym q))

  -- Under every strategy: an event of a history for which the aggregate's `applyEvent` throws
  -- anything but a `MissingApplyMethodException` is dropped in silence. Replaying goes on with the
  -- events behind it on the aggregate that the events before it left; what the method changed before
  -- it threw stays changed.
  pub apply_events_drops :
      (before after : List E) (e : E) (a : A) (s : S) {a₁ : A} {s₁ s₂ : S} {x : Exception}
      → apply_events methods strategy a before s ≡ (ok a₁, s₁)
      → methods.has_apply_event a₁ ≡ true
      → methods.apply_event a₁ e s₁ ≡ (err x, s₂)
      → is_missing_apply x ≡ false
      → apply_events methods strategy a (before ++ (e ∷ after)) s
        ≡ apply_events methods strategy a₁ after s₂
  apply_events_drops before after e a s {a₁} {s₁} {s₂} {x} h has thrown other =
      apply_events-append before (e ∷ after) a a₁ s s₁ h ∙ one
    where
      one :
          apply_events methods strategy a₁ (e ∷ after) s₁
          ≡ apply_events methods strategy a₁ after s₂
      one = unfold apply_events in rw (has, thrown, other) refl
