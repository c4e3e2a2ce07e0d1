-- ===== src/Window/Signals.antt =====
-- A protocol automaton for each packet identifier: a packet's meaning is a signal, v3 and v5 alike, and
-- a signal moves the phase of one identifier.
use traffic_director.Window.Vec.{
  WindowState, c2b_publish_sent, c2b_pubrel_sent, b2c_publish_sent, b2c_pubrec_forwarded, Slots,
  vec_get,
}
use traffic_director.Codec.{QoS, at_most_once, PacketV3, PacketV5, MqttPacket, v3, v5}
use traffic_director.Prelude.{ℕ, Option, none, some, ◌==◌, if◌then◌else◌}
use mathlib.Core.Option

-- What a packet says of an exchange. PUBACK acknowledges, PUBREC receives, PUBREL releases,
-- PUBCOMP completes.
pub data PacketSignal : Type 0 where
  publishes : QoS → Option ℕ → PacketSignal
  acknowledges receives releases completes : ℕ → PacketSignal
  unrelated : PacketSignal

abbrev pub signal : MqttPacket → PacketSignal
signal (v3 (PacketV3.publish p)) = publishes p.qos p.packet_id
signal (v3 (PacketV3.publish_ack id)) = acknowledges id
signal (v3 (PacketV3.publish_received id)) = receives id
signal (v3 (PacketV3.publish_release id)) = releases id
signal (v3 (PacketV3.publish_complete id)) = completes id
signal (v5 (PacketV5.publish p)) = publishes p.qos p.packet_id
signal (v5 (PacketV5.publish_ack a)) = acknowledges a.packet_id
signal (v5 (PacketV5.publish_received a)) = receives a.packet_id
signal (v5 (PacketV5.publish_release a)) = releases a.packet_id
signal (v5 (PacketV5.publish_complete a)) = completes a.packet_id
signal _ = unrelated

-- Where an identifier stands in one direction: `none` if nothing of it is in flight.
abbrev pub Phase : Type 0
Phase = Option WindowState

abbrev pub phase : Slots → ℕ → Phase
phase v id = Option.map (λ e. e.0) (vec_get v id)

abbrev pub moved : ℕ → ℕ → Phase → Phase → Phase
moved i j to s = if i == j then to else s

-- An identifier that is in flight goes to `to`; another stays out.
abbrev pub if_tracked : WindowState → Phase → Phase
if_tracked to none = none
if_tracked to (some s) = some to

abbrev pub started : WindowState → QoS → Option ℕ → ℕ → Phase → Phase
started to at_most_once id j s = s
started to _ none j s = s
started to _ (some i) j s = moved i j (some to) s

-- The phase of identifier `j` after a signal: one function for each sender and direction.
abbrev pub client_c2b : PacketSignal → ℕ → Phase → Phase
client_c2b (publishes qos id) j s = started c2b_publish_sent qos id j s
client_c2b (releases i) j s = moved i j (if_tracked c2b_pubrel_sent s) s
client_c2b _ j s = s

abbrev pub client_b2c : PacketSignal → ℕ → Phase → Phase
client_b2c (acknowledges i) j s = moved i j none s
client_b2c (receives i) j s = moved i j (if_tracked b2c_pubrec_forwarded s) s
client_b2c (completes i) j s = moved i j none s
client_b2c _ j s = s

abbrev pub broker_c2b : PacketSignal → ℕ → Phase → Phase
broker_c2b (acknowledges i) j s = moved i j none s
broker_c2b (completes i) j s = moved i j none s
broker_c2b _ j s = s

abbrev pub broker_b2c : PacketSignal → ℕ → Phase → Phase
broker_b2c (publishes qos id) j s = started b2c_publish_sent qos id j s
broker_b2c _ j s = s
