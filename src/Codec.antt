-- ===== src/Codec.antt =====
-- What the proxy sees of the `rmqtt_codec` crate. The packet types have the constructors and the
-- fields that the sources name; a field `rest`, or a constructor `other`, stands for what the
-- proxy never looks at. The codec itself is a parameter, the record `CodecLib`.
use traffic_director.Prelude.{
  ℕ, ◌<◌, ◌≡◌, Bool, String, Option, none, some, List, [], ◌∷◌, Bytes, ◌/◌,
}
use traffic_director.Prelude.Bits.{IsByte}

pub data QoS : Type 0 where
  at_most_once at_least_once exactly_once : QoS

pub data ProtocolVersion : Type 0 where
  mqtt3 mqtt5 : ProtocolVersion

-- A packet identifier is a `NonZeroU16`.
pub record Publish : Type 0 where
  pub qos : QoS
  pub packet_id : Option ℕ
  pub rest : Bytes

pub record Connect : Type 0 where
  pub keep_alive : ℕ
  pub rest : Bytes

pub data PacketV3 : Type 0 where
  connect : Connect → PacketV3
  connect_ack : Bytes → PacketV3
  publish : Publish → PacketV3
  publish_ack : ℕ → PacketV3
  publish_received : ℕ → PacketV3
  publish_release : ℕ → PacketV3
  publish_complete : ℕ → PacketV3
  subscribe : ℕ → List (String × QoS) → PacketV3
  subscribe_ack : Bytes → PacketV3
  unsubscribe : ℕ → List String → PacketV3
  ping_request : PacketV3
  ping_response : PacketV3
  disconnect : PacketV3
  other : Bytes → PacketV3

-- PUBACK, PUBREC, PUBREL and PUBCOMP of v5.
pub record Ack : Type 0 where
  pub packet_id : ℕ
  pub rest : Bytes

pub record ConnectAck : Type 0 where
  pub server_keepalive_sec : Option ℕ
  pub rest : Bytes

pub data RetainHandling : Type 0 where
  at_subscribe at_subscribe_new no_at_subscribe : RetainHandling

pub record SubscriptionOptions : Type 0 where
  pub qos : QoS
  pub no_local : Bool
  pub retain_as_published : Bool
  pub retain_handling : RetainHandling

pub record Subscribe : Type 0 where
  pub packet_id : ℕ
  pub id : Option ℕ
  pub user_properties : List (String × String)
  pub topic_filters : List (String × SubscriptionOptions)

pub record Unsubscribe : Type 0 where
  pub packet_id : ℕ
  pub topic_filters : List String
  pub rest : Bytes

-- The reasons that the sources name; `other_reason` is any other.
pub data DisconnectReasonCode : Type 0 where
  normal_disconnection server_shutting_down server_busy : DisconnectReasonCode
  use_another_server server_moved keep_alive_timeout : DisconnectReasonCode
  other_reason : ℕ → DisconnectReasonCode

pub record Disconnect : Type 0 where
  pub reason_code : DisconnectReasonCode
  pub session_expiry_interval_secs : Option ℕ
  pub server_reference : Option String
  pub reason_string : Option String
  pub user_properties : List (String × String)

pub data PacketV5 : Type 0 where
  connect : Connect → PacketV5
  connect_ack : ConnectAck → PacketV5
  publish : Publish → PacketV5
  publish_ack : Ack → PacketV5
  publish_received : Ack → PacketV5
  publish_release : Ack → PacketV5
  publish_complete : Ack → PacketV5
  subscribe : Subscribe → PacketV5
  subscribe_ack : Bytes → PacketV5
  unsubscribe : Unsubscribe → PacketV5
  ping_request : PacketV5
  ping_response : PacketV5
  disconnect : Disconnect → PacketV5
  other : Bytes → PacketV5

pub data MqttPacket : Type 0 where
  v3 : PacketV3 → MqttPacket
  v5 : PacketV5 → MqttPacket
  version_packet : ProtocolVersion → MqttPacket

-- The result of `Decoder::decode` on a buffer, with the codec and the buffer that it leaves.
pub data Decoded (C : Type 0) : Type 0 where
  frame : MqttPacket → C → Bytes → Decoded C
  incomplete : C → Bytes → Decoded C
  undecodable : C → Bytes → Decoded C

-- `C` is the type of the codec's own state. `encode` is `Encoder::encode` into an empty buffer,
-- `none` where it fails; the four functions on bytes are the casts and `try_from`s of the crate.
pub record CodecLib (C : Type 0) : Type 0 where
  pub version_codec : C
  pub v3_codec : ℕ → C
  pub v5_codec : ℕ → ℕ → C
  pub encode : C → MqttPacket → Option Bytes
  pub decode : C → Bytes → Decoded C
  pub qos_byte : QoS → ℕ
  pub qos_try_from : ℕ → Option QoS
  pub retain_handling_byte : RetainHandling → ℕ
  pub retain_handling_try_from : ℕ → Option RetainHandling

-- MQTT's numbering of QoS (0 to 2) and of Retain Handling (0 to 2), read back by `try_from`.
pub record HasMqttNumbers {C : Type 0} (lib : CodecLib C) : Type 0 where
  pub qos_small : (q : QoS) → lib.qos_byte q < 3
  pub qos_back : (q : QoS) → lib.qos_try_from (lib.qos_byte q) ≡ some q
  pub retain_small : (r : RetainHandling) → lib.retain_handling_byte r < 3
  pub retain_back :
      (r : RetainHandling) → lib.retain_handling_try_from (lib.retain_handling_byte r) ≡ some r

-- The packet types of MQTT's fixed header that the proxy tells apart in encoded packets.
abbrev pub packet_type : MqttPacket → Option ℕ
packet_type (v3 (PacketV3.publish p)) = some 3
packet_type (v3 (PacketV3.publish_release id)) = some 6
packet_type (v3 (PacketV3.subscribe id filters)) = some 8
packet_type (v3 (PacketV3.unsubscribe id filters)) = some 10
packet_type (v5 (PacketV5.publish p)) = some 3
packet_type (v5 (PacketV5.publish_release ack)) = some 6
packet_type (v5 (PacketV5.subscribe s)) = some 8
packet_type (v5 (PacketV5.unsubscribe u)) = some 10
packet_type _ = none

-- A buffer whose first byte is a byte, with `t` in its high nibble.
abbrev pub HasType : ℕ → Bytes → Type 0
HasType t [] = ⊥
HasType t (b ∷ raw) = IsByte b × (b / 16 ≡ t)

-- An encoded packet begins with the fixed header of its type.
pub record HasMqttHeaders {C : Type 0} (lib : CodecLib C) : Type 0 where
  pub header :
      (c : C) (p : MqttPacket) (raw : Bytes) (t : ℕ)
      → lib.encode c p ≡ some raw
      → packet_type p ≡ some t
      → HasType t raw
