-- ===== src/Messaging/Producer.antt =====
-- packages/messaging/producer/message-producer.ts. The broker behind `MessageProducer`, the
-- generator of identifiers and the clock are a parameter, and so are the interceptors that the
-- application registers: an interceptor may change the message that it is given. `W` is the state
-- that they all work on.
pub mod Laws
pub mod Tests
use nest_convoy.Prelude.{
  String, Bool, true, false, Option, none, some, List, [], ◌∷◌, if◌then◌else◌, ◌==◌, ◌&&◌, not,
}
use nest_convoy.Prelude.Result.{Result, ok, err}
use nest_convoy.Prelude.Effect.{M, ◌>>=◌, ◌>>◌, pure, throw, lift, for_each, map_each, try_catch}
use nest_convoy.Common.Exceptions.{Exception, missing_required_message_id}
use nest_convoy.Messaging.Message.{
  Message, id_header, destination_header, date_header, has_header, set_header, to_string,
}
use nest_convoy.Messaging.ChannelMapping.{ConvoyChannelMapping, transform}

pub record MessageProducer (W P : Type 0) : Type 0 where
  pub generate_message_id : M W String
  pub now : M W String
  pub target_send_batch : String → List (Message P) → Bool → M W (Unit {0})
  pub target_send : String → Message P → Bool → M W (Unit {0})

pub record NestMessageInterceptor (W P : Type 0) : Type 0 where
  pub pre_send : Message P → M W (Message P)
  pub post_send : Message P → Option Exception → M W (Unit {0})

pub record ConvoyMessageProducer (W P : Type 0) : Type 0 where
  pub channel_mapping : ConvoyChannelMapping
  pub target : MessageProducer W P
  pub interceptors : List (NestMessageInterceptor W P)

-- The three headers that a prepared message gets, its identifier and its date given.
unfoldable pub stamped :
    {P : Type 0} → ConvoyChannelMapping → String → String → String → Message P → Message P
stamped mapping id destination date m =
    set_header date_header date
      (set_header destination_header (transform destination mapping) (set_header id_header id m))

module _ {W P : Type 0} where
  pre_send_all : List (NestMessageInterceptor W P) → Message P → M W (Message P)
  pre_send_all [] m = pure m
  pre_send_all (i ∷ is) m = i.pre_send m >>= pre_send_all is

  -- Each interceptor in the order of registration.
  pub run_pre_send : ConvoyMessageProducer W P → Message P → M W (Message P)
  unfolding pre_send_all
  run_pre_send p m = pre_send_all p.interceptors m

  pub run_post_send : ConvoyMessageProducer W P → Message P → Option Exception → M W (Unit {0})
  run_post_send p m e =
      for_each (λ (i : NestMessageInterceptor W P). i.post_send m e) p.interceptors

  unfoldable pub prepare_message_headers :
      ConvoyMessageProducer W P → String → Message P → M W (Message P)
  prepare_message_headers p destination m = do
    id ← p.target.generate_message_id
    if id == "" && not (has_header id_header m)
        then throw missing_required_message_id
        else p.target.now >>= λ date. pure (stamped p.channel_mapping id destination date m)

  -- Logging reads the text of the message.
  log_message : Message P → M W (Unit {0})
  log_message m = lift (to_string m)

  -- The exception is not handed to `postSend` here, as it is in `send`.
  pub send_batch :
      ConvoyMessageProducer W P → String → List (Message P) → Bool → M W (List (Message P))
  send_batch p destination messages is_event = do
    prepared ← map_each (prepare_message_headers p destination) messages
    sent ← map_each (run_pre_send p) prepared
    try_catch
        (for_each log_message sent
          >> p.target.target_send_batch destination sent is_event
          >> for_each (λ (m : Message P). run_post_send p m none) sent)
        (λ e. for_each (λ (m : Message P). run_post_send p m none) sent >> throw e)
    pure sent

  pub send : ConvoyMessageProducer W P → String → Message P → Bool → M W (Message P)
  send p destination message is_event = do
    prepared ← prepare_message_headers p destination message
    sent ← run_pre_send p prepared
    try_catch
        (log_message sent
          >> p.target.target_send destination sent is_event
          >> run_post_send p sent none)
        (λ e. run_post_send p sent (some e) >> throw e)
    pure sent
