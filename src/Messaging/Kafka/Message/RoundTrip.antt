-- ===== src/Messaging/Kafka/Message/RoundTrip.antt =====
-- A message on its way through packages/messaging/broker/kafka/kafka-message-builder.ts, without a
-- registry of schemas.
use text.Mathlib.TextEquality.{eq_iff}
use nest_convoy.Prelude.{
  Option-cases, ◌⊎◌, ℕ, String, ◌==◌, ◌≡◌, refl, ap, Option, none, some, [], if◌then◌else◌, arith,
  Bool-cases, inl, inr,
}
use nest_convoy.Prelude.Decimal.{decimal}
use nest_convoy.Prelude.Result.{ok-injective, ok}
use nest_convoy.Prelude.Effect.{◌>>=◌}
use nest_convoy.Common.Exceptions.{missing_message_header, range_error}
use nest_convoy.Messaging.Headers.{MessageHeaders, get, set, merge}
use nest_convoy.Messaging.Headers.Laws.{IsMap, or_else, get-set, get-merge, set-IsMap, merge-IsMap}
use nest_convoy.Messaging.Message.{
  Message, id, id_header, type_header, set_header, get_header, get_required_header,
}
use nest_convoy.Messaging.Builder.{with_payload, with_reference, with_header, with_extra_headers}
use nest_convoy.Messaging.Kafka.Message.{
  false, true, err, Bool, kafka_message_from, Json, EachMessagePayload, ProducerMessage,
  partition_header, offset_header, topic_header, kafka_message, kafka_headers, to_producer_message,
  from_each_message,
}

-- The broker hands over what it was given, on a topic, at a partition and an offset.
abbrev pub delivered : {T : Type 0} → String → ℕ → ℕ → ProducerMessage T → EachMessagePayload T
delivered topic partition offset r = record {
  topic = topic;
  partition = partition;
  offset = offset;
  key = some r.key;
  value = r.value;
  headers = some r.headers;
}

-- The headers of a delivered message: those of the broker, and then the message's own.
abbrev pub delivered_header : String → ℕ → ℕ → MessageHeaders → String → Option String
delivered_header topic partition offset h j =
    if offset_header == j
    then some (decimal offset)
    else if partition_header == j
    then some (decimal partition)
    else if topic_header == j
    then some topic
    else or_else (get j h) (if type_header == j then some "Object" else none)

or_else_self : (o : Option String) → or_else o o ≡ o
or_else_self none = refl
or_else_self (some v) = refl

-- A header that is required and read stands in the map.
required-get :
    {P : Type 0} (name : String) (m : Message P) {v : String}
    → get_required_header name m ≡ ok v
    → get name m.headers ≡ some v
unfolding get_required_header get_header
required-get name m {v} h = elim (Option-cases (get name m.headers)) [
  | inl missing ↦ absurd (refused (get_header type_header m == "") (rw missing at h))
  | inr (w, found) ↦ rw found (ap some (present w (Bool-cases (w == "")) (rw found at h)))
]
  where
    refused :
        (b : Bool) → (if b then err range_error else err (missing_message_header name)) ≡ ok v → ⊥
    refused true e = cc
    refused false e = cc

    present :
        (w : String)
        → ((w == "") ≡ true) ⊎ ((w == "") ≡ false)
        → (if w == ""
            then (if get_header type_header m == ""
                then err range_error
                else err (missing_message_header name))
            else ok w)
          ≡ ok v
        → w ≡ v
    present w (inl e) q = absurd (refused (get_header type_header m == "") (rw e at q))
    present w (inr e) q = ok-injective w v (rw e at q)

abbrev base_headers : String → MessageHeaders
base_headers key = set id_header key (set type_header "Object" [])

built_header :
    (key j : String) (h : MessageHeaders)
    → IsMap h
    → get id_header h ≡ some key
    → get j (merge (base_headers key) (kafka_headers (some h) h))
      ≡ or_else (get j h) (if type_header == j then some "Object" else none)
unfolding kafka_headers
built_header key j h map has =
    rw
      (
        get-merge j (base_headers key) (merge h h) base (merge-IsMap h h),
        get-merge j h h map map,
        or_else_self (get j h),
        get-set j id_header key (set type_header "Object" []),
        get-set j type_header "Object" [],
      )
      (ground (arith, eq_iff id_header j, get_nil, has))
  where
    base : IsMap (base_headers key)
    base = set-IsMap id_header key _ (set-IsMap type_header "Object" [] tt)

    get_nil : get j [] ≡ none
    get_nil = unfold get in refl

-- Without a registry of schemas, a message with an identifier comes through the broker: it can be
-- made and read back, its payload is the plain form of the payload that was sent, and its headers
-- are the topic, the partition and the offset of the delivery and then those that were sent. The
-- one header that may be new is the type of a message without one, which becomes "Object". The
-- headers that were sent are a map, and the JSON text is read as it was written.
pub from-to :
    {W P T : Type 0} (json : Json T P) (to_plain : P → P) (m : Message P) (s : W)
    (topic key : String) (partition offset : ℕ)
    → IsMap m.headers
    → id m ≡ ok key
    → (d : Message P) × ((to_producer_message json to_plain none m >>= λ r.
            from_each_message json to_plain none (delivered topic partition offset r))
          s
        ≡ (ok d, s))
      × (d.payload ≡ to_plain m.payload)
      × ((j : String) → get j d.headers ≡ delivered_header topic partition offset m.headers j)
unfolding to_producer_message from_each_message with_payload with_reference with_header
    with_extra_headers kafka_message kafka_message_from
from-to {W} {P} {T} json to_plain m s topic key partition offset map has = (
  sent,
  rw (has, json.parse-stringify m.payload m.headers) refl,
  unfold set_header in refl,
  headers,
)
  where
    sent : Message P
    sent =
        kafka_message (to_plain m.payload)
          (merge (base_headers key) (kafka_headers (some m.headers) m.headers))
          (delivered topic partition offset
            (record { key = key; value = json.stringify m.payload m.headers; headers = m.headers }))

    headers :
        (j : String) → get j sent.headers ≡ delivered_header topic partition offset m.headers j
    headers j =
        unfold set_header in
        rw
          (
            get-set j offset_header (decimal offset) _,
            get-set j partition_header (decimal partition) _,
            get-set j topic_header topic _,
            built_header key j m.headers map (required-get id_header m (unfold id in has)),
          )
          refl
