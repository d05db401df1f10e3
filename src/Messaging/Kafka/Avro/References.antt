-- ===== src/Messaging/Kafka/Avro/References.antt =====
-- What the references of a property make of its schema, in
-- packages/messaging/broker/kafka/avro-schema.ts.
use nest_convoy.Messaging.Kafka.Avro.Mentions.{
  Mentions, MentionsType, MentionsArgs, AnyMentions, Within, WithinType, WithinArgs, AllWithin,
  IsOk, Overflows, bind-IsOk, bind-Overflows, bind-Overflows_later, bind-either,
}
use nest_convoy.Prelude.{◌≡◌, refl, ◌⊎◌, inl, inr, Option, none, some, [], ◌∷◌}
use nest_convoy.Prelude.Result.{Result}
use nest_convoy.Events.Schema.{Class}
use nest_convoy.Messaging.Kafka.Avro.{
  PropertySchema, PropertyType, TemplateArgs, property, class_type, array_type, union_type,
  enum_type, plain_type, no_args, arg, Properties, AvroSchema, AvroSchemaMetadata, create_property,
  create_type, create_args, create_fields, class_reference,
}

module _ (metadata : Class → Option AvroSchemaMetadata) (make : Class → Result AvroSchema) where
  -- What the references of a property give decides what the property gives.
  reference-IsOk :
      (c : Class) (o : Option AvroSchemaMetadata)
      → ((meta : AvroSchemaMetadata) × (o ≡ some meta)) ⊎ IsOk (make c)
      → IsOk (class_reference metadata make c o)
  reference-IsOk c none (inl (meta, e)) = absurd (no_meta e)
    where
      no_meta : none ≡ some meta → ⊥
      no_meta q = cc
  reference-IsOk c none (inr made) = made
  reference-IsOk c (some meta) h = (_, refl)

  reference-either :
      (c : Class) (o : Option AvroSchemaMetadata)
      → IsOk (make c) ⊎ Overflows (make c)
      → IsOk (class_reference metadata make c o) ⊎ Overflows (class_reference metadata make c o)
  reference-either c none h = h
  reference-either c (some meta) h = inl (_, refl)

  abbrev pub Makes : Class → Type 0
  Makes c = ((meta : AvroSchemaMetadata) × (metadata c ≡ some meta)) ⊎ IsOk (make c)

  mutual
    unfolding create_property

    property-IsOk : (p : PropertySchema) → Within Makes p → IsOk (create_property metadata make p)
    property-IsOk (property type optional nullable) h =
        bind-IsOk (create_type metadata make type) _ (type-IsOk type h) (λ a. (_, refl))

    type-IsOk : (t : PropertyType) → WithinType Makes t → IsOk (create_type metadata make t)
    type-IsOk (class_type c) h = reference-IsOk c (metadata c) h
    type-IsOk (array_type args) h =
        bind-IsOk (create_args metadata make args) _ (args-IsOk args h) (λ a. (_, refl))
    type-IsOk (union_type args) h =
        bind-IsOk (create_args metadata make args) _ (args-IsOk args h) (λ a. (_, refl))
    type-IsOk (enum_type symbols) h = (_, refl)
    type-IsOk (plain_type name) h = (_, refl)

    args-IsOk :
        (args : TemplateArgs) → WithinArgs Makes args → IsOk (create_args metadata make args)
    args-IsOk no_args h = (_, refl)
    args-IsOk (arg p args) (h, hs) =
        bind-IsOk (create_property metadata make p) _ (property-IsOk p h) (λ schema.
          bind-IsOk (create_args metadata make args) _ (args-IsOk args hs) (λ a. (_, refl)))

  pub fields-IsOk : (ps : Properties) → AllWithin Makes ps → IsOk (create_fields metadata make ps)
  unfolding create_fields
  fields-IsOk [] h = (_, refl)
  fields-IsOk ((name, p) ∷ ps) (h, hs) =
      bind-IsOk (create_property metadata make p) _ (property-IsOk p h) (λ schema.
        bind-IsOk (create_fields metadata make ps) _ (fields-IsOk ps hs) (λ a. (_, refl)))

  module _ (either : (c : Class) → IsOk (make c) ⊎ Overflows (make c)) where
    mutual
      unfolding create_property

      property-either :
          (p : PropertySchema)
          → IsOk (create_property metadata make p) ⊎ Overflows (create_property metadata make p)
      property-either (property type optional nullable) =
          bind-either (create_type metadata make type) _ (type-either type) (λ a. inl (_, refl))

      type-either :
          (t : PropertyType)
          → IsOk (create_type metadata make t) ⊎ Overflows (create_type metadata make t)
      type-either (class_type c) = reference-either c (metadata c) (either c)
      type-either (array_type args) =
          bind-either (create_args metadata make args) _ (args-either args) (λ a. inl (_, refl))
      type-either (union_type args) =
          bind-either (create_args metadata make args) _ (args-either args) (λ a. inl (_, refl))
      type-either (enum_type symbols) = inl (_, refl)
      type-either (plain_type name) = inl (_, refl)

      args-either :
          (args : TemplateArgs)
          → IsOk (create_args metadata make args) ⊎ Overflows (create_args metadata make args)
      args-either no_args = inl (_, refl)
      args-either (arg p args) =
          bind-either (create_property metadata make p) _ (property-either p) (λ schema.
            bind-either (create_args metadata make args) _ (args-either args) (λ a. inl (_, refl)))

    pub fields-either :
        (ps : Properties)
        → IsOk (create_fields metadata make ps) ⊎ Overflows (create_fields metadata make ps)
    unfolding create_fields
    fields-either [] = inl (_, refl)
    fields-either ((name, p) ∷ ps) =
        bind-either (create_property metadata make p) _ (property-either p) (λ schema.
          bind-either (create_fields metadata make ps) _ (fields-either ps) (λ a. inl (_, refl)))

    module _ (P : Class → Type 0)
        (stuck : (c : Class) → P c → (metadata c ≡ none) × Overflows (make c)) where
      reference-Overflows :
          (c : Class) → P c → Overflows (class_reference metadata make c (metadata c))
      reference-Overflows c h = let (bare, over) = stuck c h in rw bare over

      mutual
        unfolding create_property

        property-Overflows :
            (p : PropertySchema) → Mentions P p → Overflows (create_property metadata make p)
        property-Overflows (property type optional nullable) h =
            bind-Overflows (create_type metadata make type) _ (type-Overflows type h)

        type-Overflows :
            (t : PropertyType) → MentionsType P t → Overflows (create_type metadata make t)
        type-Overflows (class_type c) h = reference-Overflows c h
        type-Overflows (array_type args) h =
            bind-Overflows (create_args metadata make args) _ (args-Overflows args h)
        type-Overflows (union_type args) h =
            bind-Overflows (create_args metadata make args) _ (args-Overflows args h)
        type-Overflows (enum_type symbols) h = absurd h
        type-Overflows (plain_type name) h = absurd h

        args-Overflows :
            (args : TemplateArgs) → MentionsArgs P args → Overflows (create_args metadata make args)
        args-Overflows no_args h = absurd h
        args-Overflows (arg p args) (inl h) =
            bind-Overflows (create_property metadata make p) _ (property-Overflows p h)
        args-Overflows (arg p args) (inr h) =
            bind-Overflows_later (create_property metadata make p) _ (property-either p)
              (λ schema. bind-Overflows (create_args metadata make args) _ (args-Overflows args h))

      pub fields-Overflows :
          (ps : Properties) → AnyMentions P ps → Overflows (create_fields metadata make ps)
      unfolding create_fields
      fields-Overflows [] h = absurd h
      fields-Overflows ((name, p) ∷ ps) (inl h) =
          bind-Overflows (create_property metadata make p) _ (property-Overflows p h)
      fields-Overflows ((name, p) ∷ ps) (inr h) =
          bind-Overflows_later (create_property metadata make p) _ (property-either p)
            (λ schema. bind-Overflows (create_fields metadata make ps) _ (fields-Overflows ps h))
