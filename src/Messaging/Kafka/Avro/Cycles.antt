-- ===== src/Messaging/Kafka/Avro/Cycles.antt =====
-- When packages/messaging/broker/kafka/avro-schema.ts makes a schema: classes that refer to one
-- another without the decorator.
use nest_convoy.Messaging.Kafka.Avro.References.{
  fields-Overflows, Makes, fields-IsOk, fields-either,
}
use nest_convoy.Messaging.Kafka.Avro.Mentions.{
  AnyMentions, AllWithin, all-Within, IsOk, Overflows, bind-IsOk, bind-Overflows, bind-either,
}
use nest_convoy.Prelude.{
  ℕ, zero, suc, ◌<◌, String, ◌≡◌, refl, ◌⊎◌, inl, inr, Option, none, some, arith,
}
use nest_convoy.Prelude.Result.{err}
use nest_convoy.Common.Exceptions.{range_error}
use nest_convoy.Events.Schema.{Class}
use nest_convoy.Messaging.Kafka.Avro.{
  Properties, AvroSchemaMetadata, create_fields, create_avro_schema,
}

module _ (metadata : Class → Option AvroSchemaMetadata) (properties : Class → Properties) where
  schema-either :
      (depth : ℕ) (namespace : Option String) (c : Class)
      → IsOk (create_avro_schema metadata properties depth namespace c)
        ⊎ Overflows (create_avro_schema metadata properties depth namespace c)
  unfolding create_avro_schema
  schema-either zero namespace c = inr refl
  schema-either (suc depth) namespace c =
      bind-either
        (create_fields metadata (create_avro_schema metadata properties depth none) (properties c))
        _
        (fields-either metadata (create_avro_schema metadata properties depth none)
          (schema-either depth none) (properties c))
        (λ fields. inl (_, refl))

  -- Classes without the decorator that refer to one another in a cycle, directly or within arrays
  -- and unions, have no schema: whatever room the call stack has, it is used up.
  pub create_avro_schema_cycle :
      (P : Class → Type 0)
      → ((c : Class) → P c → (metadata c ≡ none) × AnyMentions P (properties c))
      → (depth : ℕ) (namespace : Option String) (c : Class) → P c
      → create_avro_schema metadata properties depth namespace c ≡ err range_error
  unfolding create_avro_schema
  create_avro_schema_cycle P cycle zero namespace c h = refl
  create_avro_schema_cycle P cycle (suc depth) namespace c h =
      bind-Overflows
        (create_fields metadata (create_avro_schema metadata properties depth none) (properties c))
        _
        (fields-Overflows metadata (create_avro_schema metadata properties depth none)
          (schema-either depth none) P
          (λ d hd. ((cycle d hd).0, create_avro_schema_cycle P cycle depth none d hd))
          (properties c) (cycle c h).1)

  -- What a class refers to has the decorator or is of a lower rank.
  abbrev pub Falls : (Class → ℕ) → Class → Type 0
  Falls rank c =
      AllWithin (λ d. ((meta : AvroSchemaMetadata) × (metadata d ≡ some meta)) ⊎ (rank d < rank c))
        (properties c)

  -- A schema is made where there is no such cycle: if every class refers only to classes with the
  -- decorator and to classes of a lower rank, a call stack deeper than the rank of a class is
  -- enough for its schema.
  pub create_avro_schema_enough :
      (rank : Class → ℕ)
      → ((c : Class) → Falls rank c)
      → (depth : ℕ) (namespace : Option String) (c : Class) → rank c < depth
      → IsOk (create_avro_schema metadata properties depth namespace c)
  unfolding create_avro_schema
  create_avro_schema_enough rank falls zero namespace c h = elim h [ ]
  create_avro_schema_enough rank falls (suc depth) namespace c h =
      bind-IsOk
        (create_fields metadata (create_avro_schema metadata properties depth none) (properties c))
        _
        (fields-IsOk metadata (create_avro_schema metadata properties depth none) (properties c) (
          all-Within Lower (Makes metadata (create_avro_schema metadata properties depth none))
            (made (λ d l. create_avro_schema_enough rank falls depth none d l)) (properties c)
            (falls c)))
        (λ fields. (_, refl))
    where
      Lower : Class → Type 0
      Lower d = ((meta : AvroSchemaMetadata) × (metadata d ≡ some meta)) ⊎ (rank d < rank c)

      made :
          ((d : Class)
            → rank d < depth
            → IsOk (create_avro_schema metadata properties depth none d))
          → (d : Class) → Lower d
          → Makes metadata (create_avro_schema metadata properties depth none) d
      made below d (inl annotated) = inl annotated
      made below d (inr lower) = inr (below d (omega arith))
