-- ===== src/Messaging/ChannelMapping.antt =====
-- packages/messaging/common/channel-mapping.ts.
use text.Mathlib.TextEquality.{eq_iff}
use nest_convoy.Prelude.{String, ◌≡◌, ◌==◌, Option, none, some, if◌then◌else◌, arith}
use nest_convoy.Messaging.Headers.{MessageHeaders, get, set}
use nest_convoy.Messaging.Headers.Laws.{get-set}

-- A map from channels to channels is kept as the map of the headers is.
abbrev pub ConvoyChannelMapping : Type 0
ConvoyChannelMapping = MessageHeaders

pub with_mapping : String → String → ConvoyChannelMapping → ConvoyChannelMapping
with_mapping from to m = set from to m

abbrev or_channel : Option String → String → String
or_channel none channel = channel
or_channel (some to) channel = to

unfoldable pub transform : String → ConvoyChannelMapping → String
transform channel m = or_channel (get channel m) channel

-- A mapping moves its own channel and leaves the others where they were.
pub transform-with_mapping :
    (c from to : String) (m : ConvoyChannelMapping)
    → transform c (with_mapping from to m) ≡ (if from == c then to else transform c m)
unfolding transform with_mapping
transform-with_mapping c from to m = ground (arith, get-set c from to m, eq_iff from c)
