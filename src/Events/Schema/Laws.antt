-- ===== src/Events/Schema/Laws.antt =====
-- packages/events/aggregate/schema/aggregate-schema.ts: what upcasting does to events.
use nest_convoy.Prelude.{
  sym, subst, ◌⊎◌, ◌≡◌, refl, ap, ◌∙◌, true, false, Option, some, List, [], ◌∷◌, Bool-cases, inl,
  inr,
}
use nest_convoy.Prelude.Dict.{lookup-insert, string_key}
use nest_convoy.Prelude.Int.{ℤ, int_eq_refl}
use nest_convoy.Prelude.Result.{ok-injective, ok, >>=-eq-ok}
use nest_convoy.Events.Schema.{
  type_or, NewEventAndUpcasters, upcast_found, EventIdTypeAndData, AggregateSchema, EventMetadata,
  number, upcast, maybe_upcast, upcast_all, upcast_events, needs_upcast, event_version,
  with_new_version, current_version, is_empty, find_upcasters, run_upcasters, schema_version,
  metadata_or_empty,
}

module _ {J : Type 0} (schema : AggregateSchema J) where
  -- An event that was given the version is not upcast to that version again.
  needs_upcast-with_new_version :
      (v : ℤ) (m : Option EventMetadata) (e : EventIdTypeAndData J)
      → e.metadata ≡ some (with_new_version v m)
      → needs_upcast v (event_version e) ≡ false
  unfolding needs_upcast event_version with_new_version
  needs_upcast-with_new_version v m e same =
      rw
        (
          same,
          lookup-insert schema_version schema_version (number v) (metadata_or_empty m),
          int_eq_refl v,
        )
        refl

  upcast_empty :
      (e : EventIdTypeAndData J) (v : ℤ)
      → is_empty (find_upcasters schema e.event_type (event_version e) v) ≡ true
      → upcast schema e v (event_version e) ≡ ok e
  unfolding upcast
  upcast_empty e v empty = rw empty refl

  upcast_full :
      (e : EventIdTypeAndData J) (v : ℤ)
      → is_empty (find_upcasters schema e.event_type (event_version e) v) ≡ false
      → upcast schema e v (event_version e)
        ≡ upcast_found schema e (find_upcasters schema e.event_type (event_version e) v)
  unfolding upcast
  upcast_full e v full = rw full refl

  upcast_found-eq-ok :
      (e e' : EventIdTypeAndData J) (v : ℤ) (found : NewEventAndUpcasters J)
      → current_version schema ≡ ok v
      → upcast_found schema e found ≡ ok e'
      → (json : J) × (run_upcasters found.upcasters e.event_data ≡ ok json)
        × (e' ≡ record {
          event_id = e.event_id;
          event_type = type_or e.event_type found.new_type;
          event_data = json;
          metadata = some (with_new_version v e.metadata);
        })
  upcast_found-eq-ok e e' v found latest h =
      let run = >>=-eq-ok (run_upcasters found.upcasters e.event_data) _ h in
      let versioned = >>=-eq-ok (current_version schema) _ run.2 in
      let same : versioned.0 ≡ v = ok-injective versioned.0 v (sym versioned.1 ∙ latest) in
      let result = ok-injective _ e' versioned.2 in (run.0, run.1, rw (← same) (sym result))

  -- What an upcast gives is the event itself, or has the version.
  upcast_cases :
      (v : ℤ) (e e' : EventIdTypeAndData J)
      → current_version schema ≡ ok v
      → upcast schema e v (event_version e) ≡ ok e'
      → (e ≡ e') ⊎ (e'.metadata ≡ some (with_new_version v e.metadata))
  upcast_cases v e e' latest h =
      let found = find_upcasters schema e.event_type (event_version e) v in
      elim (Bool-cases (is_empty found)) [
        | inl empty ↦ inl (ok-injective e e' (sym (upcast_empty e v empty) ∙ h))
        | inr full ↦ inr (versioned full)
      ]
    where
      versioned :
          is_empty (find_upcasters schema e.event_type (event_version e) v) ≡ false
          → e'.metadata ≡ some (with_new_version v e.metadata)
      versioned full =
          let found = find_upcasters schema e.event_type (event_version e) v in
          let run = upcast_found-eq-ok e e' v found latest (sym (upcast_full e v full) ∙ h) in
          ap (λ (x : EventIdTypeAndData J). x.metadata) run.2

  maybe_upcast_fresh :
      (v : ℤ) (e : EventIdTypeAndData J)
      → needs_upcast v (event_version e) ≡ false
      → maybe_upcast schema v e ≡ ok e
  maybe_upcast_fresh v e fresh = rw fresh refl

  maybe_upcast_stale :
      (v : ℤ) (e : EventIdTypeAndData J)
      → needs_upcast v (event_version e) ≡ true
      → maybe_upcast schema v e ≡ upcast schema e v (event_version e)
  maybe_upcast_stale v e stale = rw stale refl

  maybe_upcast-stable :
      (v : ℤ) (e e' : EventIdTypeAndData J)
      → current_version schema ≡ ok v
      → maybe_upcast schema v e ≡ ok e'
      → maybe_upcast schema v e' ≡ ok e'
  maybe_upcast-stable v e e' latest h = elim (Bool-cases (needs_upcast v (event_version e))) [
    | inr fresh ↦ unchanged (ok-injective e e' (sym (maybe_upcast_fresh v e fresh) ∙ h))
    | inl stale ↦ elim (upcast_cases v e e' latest (sym (maybe_upcast_stale v e stale) ∙ h)) [
      | inl same ↦ unchanged same
      | inr versioned ↦
          maybe_upcast_fresh v e' (needs_upcast-with_new_version v e.metadata e' versioned)
    ]
  ]
    where
      unchanged : e ≡ e' → maybe_upcast schema v e' ≡ ok e'
      unchanged same = subst (λ x. maybe_upcast schema v x ≡ ok e') same h

  upcast_all-stable :
      (v : ℤ) (es es' : List (EventIdTypeAndData J))
      → current_version schema ≡ ok v
      → upcast_all schema v es ≡ ok es'
      → upcast_all schema v es' ≡ ok es'
  unfolding upcast_all
  upcast_all-stable v [] es' latest h =
      subst (λ x. upcast_all schema v x ≡ ok es') (ok-injective [] es' h) h
  upcast_all-stable v (e ∷ es) es' latest h =
      let head = >>=-eq-ok (maybe_upcast schema v e) _ h in
      let tail = >>=-eq-ok (upcast_all schema v es) _ head.2 in
      subst (λ x. upcast_all schema v x ≡ ok x) (ok-injective (head.0 ∷ tail.0) es' tail.2)
        (rw
          (
            maybe_upcast-stable v e head.0 latest head.1,
            upcast_all-stable v es tail.0 latest tail.1,
          )
          refl)

  -- Upcasting is idempotent: events that were upcast stay as they are, whatever the upcasters do
  -- and however often the schema is applied.
  pub upcast_events-idempotent :
      (es es' : List (EventIdTypeAndData J))
      → upcast_events schema es ≡ ok es'
      → upcast_events schema es' ≡ ok es'
  unfolding upcast_events
  upcast_events-idempotent es es' h =
      let latest = >>=-eq-ok (current_version schema) _ h in
      rw latest.1 (upcast_all-stable latest.0 es es' latest.1 latest.2)

  abbrev pub with_metadata : EventIdTypeAndData J → Option EventMetadata → EventIdTypeAndData J
  with_metadata e m = record e { metadata = m }

  only :
      (e e' : EventIdTypeAndData J) (v : ℤ)
      → current_version schema ≡ ok v
      → upcast_events schema (e ∷ []) ≡ ok (e' ∷ [])
      → maybe_upcast schema v e ≡ ok e'
  unfolding upcast_events upcast_all
  only e e' v latest h =
      let one = >>=-eq-ok (current_version schema) _ h in
      let run = >>=-eq-ok (maybe_upcast schema one.0 e) _ one.2 in
      let head = ok-injective (run.0 ∷ []) (e' ∷ []) run.2 in
      let same = ok-injective one.0 v (sym one.1 ∙ latest) in
      subst (λ w. maybe_upcast schema w e ≡ ok e') same (run.1 ∙ ap ok (∷-injective run.0 e' head))
    where
      ∷-injective : (a b : EventIdTypeAndData J) → a ∷ [] ≡ b ∷ [] → a ≡ b
      ∷-injective a b q = cc

  upcast-version_blind :
      (e e' : EventIdTypeAndData J) (m : Option EventMetadata) (v : ℤ)
      → current_version schema ≡ ok v
      → upcast schema e v (event_version e) ≡ ok e'
      → (e'' : EventIdTypeAndData J) × (upcast schema
            (with_metadata e m)
            v
            (event_version (with_metadata e m))
          ≡ ok e'')
        × (e''.event_data ≡ e'.event_data)
        × (e''.event_type ≡ e'.event_type)
  unfolding find_upcasters
  upcast-version_blind e e' m v latest h =
      let found = find_upcasters schema e.event_type (event_version e) v in
      elim (Bool-cases (is_empty found)) [
        | inl empty ↦
            let same = ok-injective e e' (sym (upcast_empty e v empty) ∙ h) in
            (
              with_metadata e m,
              upcast_empty (with_metadata e m) v empty,
              ap (λ (x : EventIdTypeAndData J). x.event_data) same,
              ap (λ (x : EventIdTypeAndData J). x.event_type) same,
            )
        | inr full ↦
            let run = upcast_found-eq-ok e e' v found latest (sym (upcast_full e v full) ∙ h) in
            let e'' : EventIdTypeAndData J = record {
              event_id = e.event_id;
              event_type = type_or e.event_type found.new_type;
              event_data = run.0;
              metadata = some (with_new_version v m);
            } in
            (
              e'',
              upcast_full (with_metadata e m) v full ∙ rw (run.1, latest) refl,
              ap (λ (x : EventIdTypeAndData J). x.event_data) (sym run.2),
              ap (λ (x : EventIdTypeAndData J). x.event_type) (sym run.2),
            )
      ]

  -- The version that an event was stored with does not select its upcasters: of two events that
  -- differ in their metadata only, both of them of other versions than the present one, what the
  -- one is upcast to has the type and the data that the other is upcast to.
  pub upcast_events-version_blind :
      (e e' : EventIdTypeAndData J) (m : Option EventMetadata) (v : ℤ)
      → current_version schema ≡ ok v
      → needs_upcast v (event_version e) ≡ true
      → needs_upcast v (event_version (with_metadata e m)) ≡ true
      → upcast_events schema (e ∷ []) ≡ ok (e' ∷ [])
      → (e'' : EventIdTypeAndData J) × (upcast_events schema (with_metadata e m ∷ [])
          ≡ ok (e'' ∷ []))
        × (e''.event_data ≡ e'.event_data)
        × (e''.event_type ≡ e'.event_type)
  unfolding upcast_events upcast_all
  upcast_events-version_blind e e' m v latest stale other h =
      let blind =
        upcast-version_blind e e' m v latest
          (sym (maybe_upcast_stale v e stale) ∙ only e e' v latest h) in
      (blind.0, rw (latest, other, blind.1) refl, blind.2, blind.3)
