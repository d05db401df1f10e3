-- ===== src/Messaging/Producer/Tests.antt =====
-- A producer over a broker that keeps nothing: packages/messaging/producer/message-producer.ts.
use nest_convoy.Prelude.{◌≡◌, refl, String, ℕ, [], ◌∷◌, false}
use nest_convoy.Prelude.Result.{ok}
use nest_convoy.Prelude.Effect.{pure, map_each, for_each}
use nest_convoy.Messaging.Message.{Message, to_string}
use nest_convoy.Messaging.Producer.{
  ConvoyMessageProducer, stamped, pre_send_all, run_pre_send, run_post_send,
  prepare_message_headers, log_message, send_batch,
}

abbrev pub broker : ConvoyMessageProducer ℕ ℕ
broker = record {
  channel_mapping = [];
  target = record {
    generate_message_id = pure "m1";
    now = pure "today";
    target_send_batch = λ destination ms is_event. pure tt;
    target_send = λ destination m is_event. pure tt;
  };
  interceptors = [];
}

pub send_batch_one :
    (destination : String) (m : Message ℕ) (n : ℕ)
    → to_string (stamped [] "m1" destination "today" m) ≡ ok tt
    → send_batch broker destination (m ∷ []) false n
      ≡ (ok (stamped [] "m1" destination "today" m ∷ []), n)
unfolding send_batch map_each prepare_message_headers run_pre_send pre_send_all for_each log_message
    run_post_send
send_batch_one destination m n typed = rw typed refl
