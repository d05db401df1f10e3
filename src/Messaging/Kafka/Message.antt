-- ===== src/Messaging/Kafka/Message.antt =====
-- packages/messaging/broker/kafka: kafka-message.ts and kafka-message-builder.ts. The value of a
-- message on the wire is a text of the type `T`: `Json` stands for `JSON.stringify` and `JSON.parse`
-- of the object with a payload and headers, where headers that are missing are none. `to_plain` is
-- the serialiser's `classToPlain` of a plain object, and a `Registry` is the one of the schemas.
pub mod RoundTrip
use nest_convoy.Prelude.{
  ◌≡◌, ℕ, String, codes, Text, Bool, true, false, Option, none, some, List, [], ◌∷◌, if◌then◌else◌,
}
use nest_convoy.Prelude.Decimal.{decimal}
use nest_convoy.Prelude.Result.{Result, ok, err}
use nest_convoy.Prelude.Result
use nest_convoy.Prelude.Effect.{M, ◌>>=◌, pure, lift}
use nest_convoy.Common.Exceptions.{type_error}
use nest_convoy.Commands.Command.{Instance}
use nest_convoy.Messaging.Headers.{MessageHeaders, from_entries, merge}
use nest_convoy.Messaging.Message.{
  Message, plain, id, id_header, has_header, get_header, set_header, get_required_header,
}
use nest_convoy.Messaging.Builder.{with_payload, with_header, with_extra_headers, build}
use nest_convoy.Events.Snapshot.Context.{big_int}

abbrev pub partition_header : String
partition_header = "kafka_partition"

abbrev pub offset_header : String
offset_header = "kafka_offset"

abbrev pub topic_header : String
topic_header = "kafka_topic"

abbrev pub schema_namespace_header : String
schema_namespace_header = "schema_namespace"

abbrev pub schema_version_header : String
schema_version_header = "schema_version"

abbrev pub schema_id_header : String
schema_id_header = "schema_id"

abbrev pub schema_subject_header : String
schema_subject_header = "schema_subject"

-- What the client library hands over for each message.
pub record EachMessagePayload (T : Type 0) : Type 0 where
  pub topic : String
  pub partition : ℕ
  pub offset : ℕ
  pub key : Option String
  pub value : T
  pub headers : Option MessageHeaders

-- What the client library is given to send.
pub record ProducerMessage (T : Type 0) : Type 0 where
  pub key : String
  pub value : T
  pub headers : MessageHeaders

pub record Json (T P : Type 0) : Type 0 where
  pub stringify : P → MessageHeaders → T
  pub parse : T → Result (P × MessageHeaders)
  pub parse-stringify : (p : P) (h : MessageHeaders) → parse (stringify p h) ≡ ok (p, h)

pub record Registry (W P T : Type 0) : Type 0 where
  -- `AvroSchemaRegistry.encode`: the message has got the headers of its schema
  pub encode : Message P → M W (Message P)
  -- `SchemaRegistry.decode`; `none` is a falsy value
  pub decode : T → M W (Option T)

module _ {T P : Type 0} where
  -- The constructor, which sets the three headers.
  unfoldable pub kafka_message : P → MessageHeaders → EachMessagePayload T → Message P
  kafka_message payload headers each = set_header offset_header (decimal each.offset) (
      set_header partition_header (decimal each.partition)
        (set_header topic_header each.topic (plain payload headers)))

  unfoldable pub kafka_message_from : Message P → EachMessagePayload T → Message P
  unfolding kafka_message
  kafka_message_from m each = kafka_message m.payload m.headers each

abbrev pub number_or_nan : Result ℕ → Option ℕ
number_or_nan (ok n) = some n
number_or_nan (err e) = none

-- `+text` of decimal digits; of another text it is NaN, also where it is a number in a notation that
-- no template writes for a whole number.
unfoldable pub to_number : Text → Option ℕ
to_number s = number_or_nan (big_int s)

module _ {P : Type 0} where
  unfoldable pub message_topic : Message P → Result String
  message_topic m = get_required_header topic_header m

  -- `none` is NaN.
  unfoldable pub message_partition : Message P → Result (Option ℕ)
  unfolding to_number
  message_partition m =
      Result.◌>>=◌ (get_required_header partition_header m) λ v. ok (to_number (codes v))

  unfoldable pub message_offset : Message P → Result ℕ
  message_offset m = Result.◌>>=◌ (get_required_header offset_header m) λ v. big_int (codes v)

  unfoldable pub message_schema_id : Message P → Result (Option (Option ℕ))
  unfolding to_number
  message_schema_id m =
      if has_header schema_id_header m
      then (Result.◌>>=◌ (get_required_header schema_id_header m)
          λ v. ok (some (to_number (codes v))))
      else ok none

-- `Object.entries({...message.headers, ...data.headers})`, where the message has headers.
unfoldable pub kafka_headers : Option MessageHeaders → MessageHeaders → MessageHeaders
kafka_headers none inner = from_entries []
kafka_headers (some outer) inner = merge outer inner

unfoldable pub required_key : Option String → Result String
required_key none = err type_error
required_key (some k) = ok k

module _ {W P T : Type 0} (json : Json T P) (to_plain : P → P)
    (registry : Option (Registry W P T)) where
  -- `avroSchemaRegistry.encode`, whose result is not used.
  unfoldable pub encoded : Message P → M W (Message P)
  encoded m = elim registry [ none ↦ pure m | some r ↦ r.encode m ]

  unfoldable pub to_producer_message : Message P → M W (ProducerMessage T)
  unfolding encoded
  to_producer_message message = do
    m ← encoded message
    key ← lift (id m)
    pure (record { key = key; value = json.stringify m.payload m.headers; headers = m.headers })

  unfoldable pub decoded_value : T → M W T
  decoded_value value = elim registry [
    | none ↦ pure value
    | some r ↦ r.decode value >>= λ d. elim d [ none ↦ pure value | some v ↦ pure v ]
  ]

  -- A plain object is an instance of `Object`.
  unfoldable pub from_each_message : EachMessagePayload T → M W (Message P)
  unfolding decoded_value kafka_headers required_key
  from_each_message each = do
    text ← decoded_value each.value
    (payload, inner) ← lift (json.parse text)
    key ← lift (required_key each.key)
    pure (
        kafka_message_from
          (build (
            with_extra_headers (kafka_headers each.headers inner) (
              with_header id_header key (
                with_payload
                  (record { constructor_name = "Object"; plain_form = to_plain payload })))))
          each)
