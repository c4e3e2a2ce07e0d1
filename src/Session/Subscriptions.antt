-- ===== src/Session/Subscriptions.antt =====
-- src/session/subscriptions.rs: the table of the client's subscriptions. Topic filters are texts.
pub mod Options
pub mod Table
pub mod Shape
pub mod Resubscribe
use traffic_director.Registry.{SubscriptionEntry}
use traffic_director.Codec.{
  QoS, at_most_once, ProtocolVersion, mqtt3, mqtt5, PacketV3, at_subscribe, SubscriptionOptions,
  PacketV5, MqttPacket, v3, v5, CodecLib,
}
use traffic_director.Prelude.{
  ℕ, ◌*◌, ◌/◌, bit_and, bit_or, String, Bool, true, false, Option, none, some, List, [], ◌∷◌,
  str_eq, ◌==◌, if◌then◌else◌, not, map,
}

abbrev pub Subscriptions : Type 0
Subscriptions = List SubscriptionEntry

-- The first entry with the filter gets the options, else a new entry is pushed.
unfoldable pub upsert : Subscriptions → String → ℕ → Subscriptions
upsert [] topic_filter options = record { topic_filter = topic_filter; options = options } ∷ []
upsert (e ∷ s) topic_filter options =
    if str_eq e.topic_filter topic_filter
    then record e { options = options } ∷ s
    else e ∷ upsert s topic_filter options

-- `retain(|e| e.topic_filter != topic_filter)`
unfoldable pub remove : Subscriptions → String → Subscriptions
remove [] topic_filter = []
remove (e ∷ s) topic_filter =
    let rest = remove s topic_filter in
    if str_eq e.topic_filter topic_filter then rest else e ∷ rest

-- The two loops of `track`, over filters with their options byte and over bare filters.
unfoldable pub upsert_all : Subscriptions → List (String × ℕ) → Subscriptions
upsert_all s [] = s
upsert_all s ((filter, options) ∷ filters) = upsert_all (upsert s filter options) filters

unfoldable pub remove_all : Subscriptions → List String → Subscriptions
remove_all s [] = s
remove_all s (filter ∷ filters) = remove_all (remove s filter) filters

abbrev pub bool_byte : Bool → ℕ
bool_byte true = 1
bool_byte false = 0

-- `qos | no_local << 2 | retain_as_published << 3 | retain_handling << 4`
abbrev pub pack : ℕ → ℕ → ℕ → ℕ → ℕ
pack qos no_local rap rh = bit_or (bit_or (bit_or qos (no_local * 4)) (rap * 8)) (rh * 16)

abbrev pub or_default {ℓ} : {A : Type ℓ} → Option A → A → A
or_default none d = d
or_default (some a) d = a

module _ {C : Type 0} (lib : CodecLib C) where
  unfoldable pub options_byte : SubscriptionOptions → ℕ
  options_byte o =
      pack (lib.qos_byte o.qos) (bool_byte o.no_local) (bool_byte o.retain_as_published)
        (lib.retain_handling_byte o.retain_handling)

  pub v3_options : List (String × QoS) → List (String × ℕ)
  v3_options [] = []
  v3_options ((filter, qos) ∷ filters) = (filter, lib.qos_byte qos) ∷ v3_options filters

  pub v5_options : List (String × SubscriptionOptions) → List (String × ℕ)
  unfolding options_byte
  v5_options [] = []
  v5_options ((filter, o) ∷ filters) = (filter, options_byte o) ∷ v5_options filters

  unfoldable pub track : Subscriptions → MqttPacket → Subscriptions
  unfolding upsert_all remove_all v3_options v5_options
  track s (v3 (PacketV3.subscribe id topic_filters)) = upsert_all s (v3_options topic_filters)
  track s (v3 (PacketV3.unsubscribe id topic_filters)) = remove_all s topic_filters
  track s (v5 (PacketV5.subscribe subscribe)) = upsert_all s (v5_options subscribe.topic_filters)
  track s (v5 (PacketV5.unsubscribe unsubscribe)) = remove_all s unsubscribe.topic_filters
  track s _ = s

  unfoldable pub qos_of_options : ℕ → QoS
  qos_of_options options = or_default (lib.qos_try_from (bit_and options 0x03)) at_most_once

  unfoldable pub subscription_options : ℕ → SubscriptionOptions
  unfolding qos_of_options
  subscription_options options = record {
    qos = qos_of_options options;
    no_local = not (bit_and options 0x04 == 0);
    retain_as_published = not (bit_and options 0x08 == 0);
    retain_handling = or_default (lib.retain_handling_try_from (options / 16)) at_subscribe;
  }

  -- `NonZeroU16::new(1)`
  abbrev resubscribe_id : ℕ
  resubscribe_id = 1

  unfoldable pub resubscribe : Subscriptions → ProtocolVersion → MqttPacket
  unfolding qos_of_options subscription_options
  resubscribe s mqtt3 =
      v3 (
        PacketV3.subscribe resubscribe_id (map (λ e. (e.topic_filter, qos_of_options e.options)) s))
  resubscribe s mqtt5 = v5 (
      PacketV5.subscribe (record {
        packet_id = resubscribe_id;
        id = none;
        user_properties = [];
        topic_filters = map (λ e. (e.topic_filter, subscription_options e.options)) s;
      }))

  unfoldable pub resubscribe_packet : Subscriptions → ProtocolVersion → Option MqttPacket
  unfolding resubscribe
  resubscribe_packet [] version = none
  resubscribe_packet (e ∷ s) version = some (resubscribe (e ∷ s) version)
