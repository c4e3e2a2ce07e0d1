-- ===== src/Session/Keepalive.antt =====
-- src/session/keepalive.rs. Instants and durations are numbers of nanoseconds.
use traffic_director.Session.Conn.{Conn, send}
use traffic_director.Codec.{
  ProtocolVersion, mqtt3, mqtt5, keep_alive_timeout, PacketV5, MqttPacket, v5, CodecLib,
}
use traffic_director.Prelude.{
  ℕ, ◌+◌, ◌-◌, ◌*◌, ◌/◌, ◌≤◌, ◌≡◌, ◌≢◌, none, [], arith, ◌==◌, if◌then◌else◌,
}

abbrev pub from_secs : ℕ → ℕ
from_secs n = n * 1000000000

abbrev pub from_millis : ℕ → ℕ
from_millis n = n * 1000000

unfoldable pub client_deadline : ℕ → ℕ → ℕ
client_deadline keep_alive last_activity =
    if keep_alive == 0
    then last_activity + from_secs (3600 * 24 * 365)
    else last_activity + from_secs keep_alive * 3 / 2

keepalive_disconnect : MqttPacket
keepalive_disconnect = v5 (
    PacketV5.disconnect (record {
      reason_code = keep_alive_timeout;
      session_expiry_interval_secs = none;
      server_reference = none;
      reason_string = none;
      user_properties = [];
    }))

-- The result of the `send` is dropped.
unfoldable pub close_for_keepalive : {C : Type 0} → CodecLib C → Conn C → ProtocolVersion → Conn C
unfolding send keepalive_disconnect
close_for_keepalive lib client mqtt3 = client
close_for_keepalive lib client mqtt5 = (send lib client keepalive_disconnect).1

-- A client with a keepalive of at least one second is given exactly one and a half times as long
-- after its last packet, to the nanosecond; with keepalive 0 it is given a year; and for any
-- keepalive the deadline is at least a second and a half after the last packet.
pub client_deadline_bounds :
    (keep_alive last : ℕ)
    → (keep_alive ≢ 0 → 2 * (client_deadline keep_alive last - last) ≡ 3 * from_secs keep_alive)
      × (keep_alive ≡ 0 → client_deadline keep_alive last ≡ last + from_secs 31536000)
      × (last + from_millis 1500 ≤ client_deadline keep_alive last)
unfolding client_deadline
client_deadline_bounds keep_alive last = ground arith
