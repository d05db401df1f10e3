-- ===== src/Commands/Tests.antt =====
-- Runs of packages/commands on small messages.
use nest_convoy.Prelude.{none, false, true, List, ◌≡◌, refl, [], ◌∷◌, some, ℕ}
use nest_convoy.Prelude.Result.{ok}
use nest_convoy.Messaging.Headers.{get}
use nest_convoy.Commands.Headers.{command_type}
use nest_convoy.Prelude.{Text, codes, ◌+◌}
use nest_convoy.Prelude.Effect.{M, pure, throw}
use nest_convoy.Common.Exceptions.{runtime}
use nest_convoy.Messaging.Message.{Message, plain, type_header, get_required_header, get_header}
use nest_convoy.Messaging.Producer.{ConvoyMessageProducer}
use nest_convoy.Commands.Headers.{reply_to}
use nest_convoy.Commands.Paths.{
  for_resource, resource_matches, split_resource_path, split_slash, replace_placeholders,
  join_slash, is_placeholder, get_placeholder_value, is_satisfied_by, every_matches,
  path_segment_matches, text_eq,
}
use nest_convoy.Commands.Paths.Laws.{resource_matches-for_resource}
use nest_convoy.Commands.Reply.{undefined}
use nest_convoy.Commands.Handler.{
  Classes, CommandMessage, CommandHandler, single, nothing, find_target_method, handles,
  command_type_matches, handler_resource_matches,
}

abbrev pattern_text : Text
pattern_text = codes "/orders/{id}"

pattern_path :
    (path : Text) × (for_resource pattern_text (codes "17" ∷ []) ≡ ok path)
    × (resource_matches path pattern_text ≡ ok true)
unfolding for_resource resource_matches split_resource_path split_slash replace_placeholders
    join_slash is_placeholder get_placeholder_value is_satisfied_by every_matches
    path_segment_matches text_eq
pattern_path = (codes "/orders/17", refl, refl)

resource_matches-for_resource_example :
    (path : Text) × (for_resource pattern_text (codes "17" ∷ []) ≡ ok path)
    × (resource_matches path pattern_text ≡ ok true)
resource_matches-for_resource_example =
    resource_matches-for_resource pattern_text (codes "17" ∷ []) refl ((refl, (refl, tt)), tt)

abbrev classes : Classes ℕ
classes = record {
  plain_to_class = λ name p. ok p;
  thrown = λ e. record { constructor_name = "Error"; plain_form = 1 };
  empty = 0;
  class_source = λ name. name;
  id_of = λ p. undefined;
}

abbrev broker : ConvoyMessageProducer ℕ ℕ
broker = record {
  channel_mapping = [];
  target = record {
    generate_message_id = pure "m1";
    now = pure "today";
    target_send_batch = λ destination ms is_event n. (ok tt, n + 1);
    target_send = λ destination m is_event n. (ok tt, n + 1);
  };
  interceptors = [];
}

abbrev handler : CommandHandler ℕ ℕ
handler = record {
  channel = "orders";
  command_name = "Reserve";
  invoke = λ cm. pure (single nothing);
  with_lock = false;
  resource = none;
  pre_lock = none;
}

abbrev reserve_message : Message ℕ
reserve_message =
    plain 5 ((command_type, "Reserve") ∷ (reply_to, "orders-reply") ∷ (type_header, "Reserve") ∷ [])

abbrev throws : CommandHandler ℕ ℕ → CommandMessage ℕ → M ℕ (List (Message ℕ))
throws h cm = throw runtime

abbrev other_handler : CommandHandler ℕ ℕ
other_handler = record handler { command_name = "Cancel" }

second_found : find_target_method (other_handler ∷ handler ∷ []) reserve_message ≡ ok (some handler)
unfolding find_target_method handles command_type_matches handler_resource_matches
    get_required_header get_header get
second_found = refl
