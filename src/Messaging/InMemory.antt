-- ===== src/Messaging/InMemory.antt =====
-- The handlers of packages/messaging/consumer/message-consumer.ts (class `MessageConsumer`) and the
-- broker of packages/messaging/broker/in-memory. A handler works on a state `W`.
use nest_convoy.Prelude.{
  sym, String, ◌≡◌, refl, List, [], ◌∷◌, ◌++◌, if◌then◌else◌, ◌==◌, arith, Bool-cases, inl, inr,
}
use mathlib.Core.List.{append-nil, append_assoc}
use text.Mathlib.TextEquality.{eq_iff}
use nest_convoy.Prelude.Effect.{M, for_each}
use nest_convoy.Messaging.Message.{Message}

abbrev pub MessageHandler : Type 0 → Type 0 → Type 0
MessageHandler W P = Message P → M W (Unit {0})

-- `Map<string, readonly MessageHandler[]>`.
abbrev pub ChannelHandlers : Type 0 → Type 0 → Type 0
ChannelHandlers W P = List (String × List (MessageHandler W P))

module _ {W P : Type 0} where
  unfoldable pub get_handlers_by_channel : String → ChannelHandlers W P → List (MessageHandler W P)
  get_handlers_by_channel channel [] = []
  get_handlers_by_channel channel ((c, hs) ∷ rest) =
      if c == channel then hs else get_handlers_by_channel channel rest

  unfoldable pub add_handler_to_channel :
      String → MessageHandler W P → ChannelHandlers W P → ChannelHandlers W P
  add_handler_to_channel channel h [] = (channel, h ∷ []) ∷ []
  add_handler_to_channel channel h ((c, hs) ∷ rest) =
      if c == channel
      then (c, hs ++ h ∷ []) ∷ rest
      else (c, hs) ∷ add_handler_to_channel channel h rest

  unfoldable pub subscribe :
      List String → MessageHandler W P → ChannelHandlers W P → ChannelHandlers W P
  subscribe [] h map = map
  subscribe (c ∷ cs) h map = subscribe cs h (add_handler_to_channel c h map)

  -- The handlers start in their order; here each ends before the next one starts.
  unfoldable pub dispatch_message : String → Message P → ChannelHandlers W P → M W (Unit {0})
  dispatch_message destination m map =
      for_each (λ (h : MessageHandler W P). h m) (get_handlers_by_channel destination map)

  -- The end of a subscription: the handlers of all subscribers go.
  unfoldable pub unsubscribe : ChannelHandlers W P → ChannelHandlers W P
  unsubscribe map = []

  -- `InMemoryMessageProducer`: the messages of a batch start in their order, as handlers do.
  unfoldable pub memory_send_batch :
      String → List (Message P) → ChannelHandlers W P → M W (Unit {0})
  unfolding dispatch_message
  memory_send_batch destination messages map =
      for_each (λ (m : Message P). dispatch_message destination m map) messages

  get_handlers-add_handler :
      (channel c : String) (h : MessageHandler W P) (map : ChannelHandlers W P)
      → get_handlers_by_channel channel (add_handler_to_channel c h map) ≡ (
          if c == channel
          then get_handlers_by_channel channel map ++ h ∷ []
          else get_handlers_by_channel channel map)
  unfolding get_handlers_by_channel add_handler_to_channel
  get_handlers-add_handler channel c h [] = refl
  get_handlers-add_handler channel c h ((j, hs) ∷ map) = ground (
    arith,
    eq_iff j c,
    eq_iff j channel,
    eq_iff c channel,
    get_handlers-add_handler channel c h map,
  )

  -- The times that a channel stands in a list.
  abbrev pub added : String → List String → MessageHandler W P → List (MessageHandler W P)
  added channel [] h = []
  added channel (c ∷ cs) h = if c == channel then h ∷ added channel cs h else added channel cs h

  -- A subscription reaches exactly its channels: a channel keeps the handlers that it had, in their
  -- order, and has the new one after them as often as the subscription names it.
  pub get_handlers_by_channel-subscribe :
      (channel : String) (cs : List String) (h : MessageHandler W P) (map : ChannelHandlers W P)
      → get_handlers_by_channel channel (subscribe cs h map)
        ≡ get_handlers_by_channel channel map ++ added channel cs h
  unfolding subscribe
  get_handlers_by_channel-subscribe channel [] h map =
      sym (append-nil (get_handlers_by_channel channel map))
  get_handlers_by_channel-subscribe channel (c ∷ cs) h map = elim (Bool-cases (c == channel)) [
    | inl here ↦
        rw
          (
            get_handlers_by_channel-subscribe channel cs h (add_handler_to_channel c h map),
            get_handlers-add_handler channel c h map,
            here,
          )
          (append_assoc (get_handlers_by_channel channel map) (h ∷ []) (added channel cs h))
    | inr other ↦
        rw
          (
            get_handlers_by_channel-subscribe channel cs h (add_handler_to_channel c h map),
            get_handlers-add_handler channel c h map,
            other,
          )
          refl
  ]
