-- ===== src/Messaging/Kafka/Avro.antt =====
-- packages/messaging/broker/kafka: avro-schema.ts and avro-schema-registry.ts. The schemas of
-- classes are those that the serialiser knows, and the metadata of a class those that the decorator
-- `AvroSchema` gave it; both are parameters. A call of `createAvroSchema` for a class has a call
-- stack with room for `depth` more of them.
pub mod Mentions
pub mod References
pub mod Cycles
use nest_convoy.Prelude.{
  ℕ, zero, suc, String, Bool, true, false, ◌||◌, Option, none, some, List, [], ◌∷◌, ◌++◌, ◌==◌,
  if◌then◌else◌,
}
use Prim.Native.String
use nest_convoy.Prelude.Decimal.{decimal}
use nest_convoy.Prelude.Dict.{lookup, insert, string_key}
use nest_convoy.Prelude.Result.{Result, ok, err, ◌>>=◌}
use nest_convoy.Prelude.Effect.{M, pure, lift, for_each}
use nest_convoy.Prelude.Effect
use nest_convoy.Common.Exceptions.{range_error, type_error}
use nest_convoy.Events.Schema.{Class}
use nest_convoy.Messaging.Headers.{MessageHeaders, from_entries}
use nest_convoy.Messaging.Message.{Message, type_header, get_required_header, set_header}
use nest_convoy.Messaging.Kafka.Message.{
  Registry, schema_namespace_header, schema_version_header, schema_id_header, schema_subject_header,
}

-- `PropertySchema`: its type, and whether it is optional and nullable.
mutual
  pub data PropertySchema : Type 0 where
    property : PropertyType → Bool → Bool → PropertySchema

  pub data PropertyType : Type 0 where
    class_type : Class → PropertyType
    array_type : TemplateArgs → PropertyType
    union_type : TemplateArgs → PropertyType
    enum_type : List String → PropertyType
    -- the name of another type
    plain_type : String → PropertyType

  pub data TemplateArgs : Type 0 where
    no_args : TemplateArgs
    arg : PropertySchema → TemplateArgs → TemplateArgs

abbrev pub Properties : Type 0
Properties = List (String × PropertySchema)

-- `schema.AvroSchema`; an array of schemas is a union.
mutual
  pub data AvroSchema : Type 0 where
    -- also the full name of a record
    primitive : String → AvroSchema
    avro_array : AvroSchemas → AvroSchema
    avro_enum : List String → AvroSchema
    avro_record : String → Option String → Fields → AvroSchema
    avro_union : AvroSchemas → AvroSchema

  pub data AvroSchemas : Type 0 where
    nil : AvroSchemas
    cons : AvroSchema → AvroSchemas → AvroSchemas

  pub data Fields : Type 0 where
    end : Fields
    field : String → AvroSchema → Fields → Fields

pub record AvroSchemaMetadata : Type 0 where
  pub namespace : String
  pub version : ℕ
  pub compatibility : Option String

unfoldable pub append : AvroSchemas → AvroSchemas → AvroSchemas
append nil ys = ys
append (cons x xs) ys = cons x (append xs ys)

-- One step of `flatMap`.
unfoldable pub flatten : AvroSchema → AvroSchemas → AvroSchemas
unfolding append
flatten (avro_union xs) rest = append xs rest
flatten x rest = cons x rest

unfoldable pub with_null : AvroSchema → AvroSchema
with_null (avro_union xs) = avro_union (cons (primitive "null") xs)
with_null x = avro_union (cons (primitive "null") (cons x nil))

-- A number is an `int`.
unfoldable pub type_name : String → String
type_name name = if name == "number" then "int" else name

unfoldable pub full_name : String → String → String
full_name namespace name = String.◌++◌ namespace (String.◌++◌ "." name)

module _ (metadata : Class → Option AvroSchemaMetadata)
    (create_class : Class → Result AvroSchema) where
  abbrev pub class_reference : Class → Option AvroSchemaMetadata → Result AvroSchema
  class_reference c none = create_class c
  class_reference c (some meta) = ok (primitive (full_name meta.namespace c.name))

  -- `createAvroSchema` of a property.
  unfoldable mutual
    pub create_property : PropertySchema → Result AvroSchema
    create_property (property type optional nullable) =
        create_type type >>= λ value. ok (if optional || nullable then with_null value else value)

    pub create_type : PropertyType → Result AvroSchema
    create_type (class_type c) = class_reference c (metadata c)
    create_type (array_type args) = create_args args >>= λ items. ok (avro_array items)
    create_type (union_type args) = create_args args >>= λ items. ok (avro_union items)
    create_type (enum_type symbols) = ok (avro_enum symbols)
    create_type (plain_type name) = ok (primitive (type_name name))

    pub create_args : TemplateArgs → Result AvroSchemas
    create_args no_args = ok nil
    create_args (arg p args) =
        create_property p >>= λ schema. create_args args >>= λ rest. ok (flatten schema rest)

  unfoldable pub create_fields : Properties → Result Fields
  create_fields [] = ok end
  create_fields ((name, p) ∷ ps) = do
    schema ← create_property p
    rest ← create_fields ps
    ok (field name schema rest)

-- `namespace || meta?.namespace`, where an empty text is falsy.
unfoldable pub namespace_or : Option String → Option AvroSchemaMetadata → Option String
namespace_or (some namespace) none = if namespace == "" then none else some namespace
namespace_or (some namespace) (some meta) =
    if namespace == "" then some meta.namespace else some namespace
namespace_or none none = none
namespace_or none (some meta) = some meta.namespace

module _ (metadata : Class → Option AvroSchemaMetadata) (properties : Class → Properties) where
  -- `createAvroSchema` of a class.
  unfoldable pub create_avro_schema : ℕ → Option String → Class → Result AvroSchema
  unfolding create_fields namespace_or
  create_avro_schema zero namespace c = err range_error
  create_avro_schema (suc depth) namespace c =
      create_fields metadata (create_avro_schema depth none) (properties c) >>= λ fields.
      ok (avro_record c.name (namespace_or namespace (metadata c)) fields)

-- An entry of `INTERNAL`, and of `records`.
pub record AvroEntry : Type 0 where
  pub target : Class
  pub entry_namespace : String
  pub entry_version : ℕ
  pub entry_compatibility : Option String

pub record AvroRecord : Type 0 where
  pub record_namespace : String
  pub record_version : ℕ
  pub record_compatibility : Option String
  pub record_schema : AvroSchema

abbrev pub Records : Type 0
Records = List (String × AvroRecord)

-- The client of the registry: `register` gives the identifier of a schema.
pub record SchemaRegistry (W P T : Type 0) : Type 0 where
  pub register : AvroSchema → String → Option String → M W ℕ
  pub registry_encode : ℕ → P → M W T
  pub registry_decode : T → M W (Option T)

module _ (metadata : Class → Option AvroSchemaMetadata) (properties : Class → Properties)
    (depth : ℕ) where
  -- The records of `onModuleInit`; the compatibility of an entry is left out.
  unfoldable pub build_records : List AvroEntry → Records → Result Records
  unfolding create_avro_schema
  build_records [] records = ok records
  build_records (e ∷ es) records = do
    schema ← create_avro_schema metadata properties depth (some e.entry_namespace) e.target
    build_records es (
        insert e.target.name
          (record {
            record_namespace = e.entry_namespace;
            record_version = e.entry_version;
            record_compatibility = none;
            record_schema = schema;
          })
          records)

  unfoldable pub register_record :
      {W P T : Type 0} → SchemaRegistry W P T → String × AvroRecord → M W (Unit {0})
  unfolding full_name
  register_record registry (type, r) =
      Effect.◌>>=◌
        (registry.register r.record_schema (full_name r.record_namespace type)
          r.record_compatibility)
        λ id. pure tt

  unfoldable pub initialize_registry :
      {W P T : Type 0} → SchemaRegistry W P T → List AvroEntry → M W Records
  unfolding build_records register_record
  initialize_registry registry entries =
      Effect.◌>>=◌ (lift (build_records entries []))
        λ records. Effect.◌>>=◌ (for_each (register_record registry) records) λ _. pure records

module _ {W P T : Type 0} (registry : SchemaRegistry W P T) (records : Records) where
  abbrev pub found_record : Option AvroRecord → Result AvroRecord
  found_record none = err type_error
  found_record (some r) = ok r

  -- The headers of the schema stand first: those of the message are written over them.
  abbrev pub schema_headers : String → AvroRecord → MessageHeaders → MessageHeaders
  schema_headers type r headers = from_entries (
      (schema_namespace_header, r.record_namespace)
      ∷ (schema_version_header, decimal r.record_version)
      ∷ (schema_subject_header, full_name r.record_namespace type)
      ∷ headers)

  -- `AvroSchemaRegistry.encode`: the message with its headers, and its value.
  unfoldable pub avro_encode : Message P → M W (Message P × T)
  unfolding full_name
  avro_encode m = Effect.◌>>=◌ (lift (get_required_header type_header m)) λ type.
      Effect.◌>>=◌ (lift (found_record (lookup type records))) λ r.
        Effect.◌>>=◌
          (registry.register r.record_schema (full_name r.record_namespace type)
            r.record_compatibility)
          λ id. Effect.◌>>=◌ (registry.registry_encode id m.payload) λ value. pure (
            set_header schema_id_header (decimal id)
                (record m { headers = schema_headers type r m.headers }),
            value,
          )

  -- What the builder of messages is given.
  abbrev pub registry_of : Registry W P T
  registry_of = record {
    encode = λ m. Effect.◌>>=◌ (avro_encode m) λ r. pure r.0;
    decode = registry.registry_decode;
  }
