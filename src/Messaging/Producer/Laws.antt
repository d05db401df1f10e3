-- ===== src/Messaging/Producer/Laws.antt =====
-- The headers that packages/messaging/producer/message-producer.ts sets.
use nest_convoy.Prelude.{String, ◌≡◌, some, if◌then◌else◌, ◌==◌}
use nest_convoy.Messaging.Headers.{get}
use nest_convoy.Messaging.Headers.Laws.{IsMap, get-set, set-IsMap}
use nest_convoy.Messaging.Message.{Message, id_header, destination_header, date_header, set_header}
use nest_convoy.Messaging.ChannelMapping.{ConvoyChannelMapping, transform}
use nest_convoy.Messaging.Producer.{stamped}

module _ {P : Type 0} where
  -- Every header of a stamped message.
  pub get-stamped :
      (j : String) (mapping : ConvoyChannelMapping) (id destination date : String) (m : Message P)
      → get j (stamped mapping id destination date m).headers ≡ (
          if date_header == j
          then some date
          else if destination_header == j
          then some (transform destination mapping)
          else if id_header == j
          then some id
          else get j m.headers)
  unfolding stamped set_header
  get-stamped j mapping id destination date m = simp get-set

  pub stamped-IsMap :
      (mapping : ConvoyChannelMapping) (id destination date : String) (m : Message P)
      → IsMap m.headers
      → IsMap (stamped mapping id destination date m).headers
  unfolding stamped set_header
  stamped-IsMap mapping id destination date m h =
      set-IsMap _ _ _ (set-IsMap _ _ _ (set-IsMap _ _ _ h))
