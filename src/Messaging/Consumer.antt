-- ===== src/Messaging/Consumer.antt =====
-- packages/messaging/consumer: message-consumer.ts and the folder duplicate-message-detectors. The
-- consumer of a broker and the table of received messages are parameters; `W` is the state that they
-- work on.
use nest_convoy.Prelude.{String, Bool, true, false, List, if◌then◌else◌, map}
use nest_convoy.Prelude.Dict.{insert, string_key}
use nest_convoy.Prelude.Effect.{M, ◌>>=◌, ◌>>◌, pure, lift, for_each, try_catch}
use nest_convoy.Messaging.Message.{Message, id}
use nest_convoy.Messaging.ChannelMapping.{ConvoyChannelMapping, transform}

abbrev pub Handler : Type 0 → Type 0 → Type 0
Handler W P = Message P → M W (Unit {0})

-- `DuplicateMessageDetector`.
pub record DuplicateMessageDetector (W P : Type 0) : Type 0 where
  pub is_duplicate : String → String → M W Bool
  pub do_with_message : String → Message P → Handler W P → M W (Unit {0})

-- The class itself: no message is a duplicate.
abbrev pub no_detector : {W P : Type 0} → DuplicateMessageDetector W P
no_detector = record {
  is_duplicate = λ consumer i. pure false;
  do_with_message = λ subscriber m handle. handle m;
}

module _ {W : Type 0} (save_received : String → String → M W (Unit {0})) where
  -- `Repository.save` of the pair: whatever it throws is taken for a duplicate.
  unfoldable pub database_is_duplicate : String → String → M W Bool
  database_is_duplicate consumer i =
      try_catch (save_received consumer i >> pure false) (λ e. pure true)

module _ {W P : Type 0} (save_received : String → String → M W (Unit {0})) where
  unfoldable pub database_do_with_message : String → Message P → Handler W P → M W (Unit {0})
  unfolding database_is_duplicate
  database_do_with_message subscriber m handle = do
    i ← lift (id m)
    duplicate ← database_is_duplicate save_received subscriber i
    if duplicate then pure tt else handle m

  abbrev pub database_detector : DuplicateMessageDetector W P
  database_detector = record {
    is_duplicate = database_is_duplicate save_received;
    do_with_message = database_do_with_message;
  }

-- The consumer of a broker; a subscription is what ends it.
pub record MessageConsumer (W P : Type 0) : Type 0 where
  pub target_subscribe : String → List String → Handler W P → Bool → M W (M W (Unit {0}))
  pub target_close : M W (Unit {0})

pub record ConvoyMessageConsumer (W P : Type 0) : Type 0 where
  pub detector : DuplicateMessageDetector W P
  pub channel_mapping : ConvoyChannelMapping
  pub target : MessageConsumer W P

-- `subs`: a subscriber that subscribes again takes the place of its former subscription.
abbrev pub ConsumerSubscriptions : Type 0 → Type 0
ConsumerSubscriptions W = List (String × M W (Unit {0}))

module _ {W P : Type 0} (consumer : ConvoyMessageConsumer W P) where
  unfoldable pub handle_consumed : String → Message P → Handler W P → M W (Unit {0})
  handle_consumed subscriber m handler = consumer.detector.do_with_message subscriber m handler

  unfoldable pub consumer_subscribe :
      String
      → List String
      → Handler W P
      → Bool
      → ConsumerSubscriptions W
      → M W (ConsumerSubscriptions W)
  unfolding handle_consumed
  consumer_subscribe subscriber channels handler is_event subs = do
    sub ←
        consumer.target.target_subscribe subscriber
          (map (λ c. transform c consumer.channel_mapping) channels)
          (λ m. handle_consumed subscriber m handler) is_event
    pure (insert subscriber sub subs)

  unfoldable pub consumer_close : ConsumerSubscriptions W → M W (Unit {0})
  consumer_close subs =
      for_each (λ (s : String × M W (Unit {0})). s.1) subs >> consumer.target.target_close
