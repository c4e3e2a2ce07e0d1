-- ===== src/Session/Outage.antt =====
-- src/session/outage.rs: servicing the client while the broker cannot be reached.
pub mod Buffer
pub mod Cases
pub mod Service
pub mod Accepts
use traffic_director.Registry.{BufferedPublish}
use traffic_director.Codec.{
  QoS, at_least_once, exactly_once, PacketV3, PacketV5, MqttPacket, v3, v5, CodecLib, at_most_once,
}
use traffic_director.Prelude.{
  Bytes, ℕ, ◌+◌, Option, List, [], ◌∷◌, ◌++◌, ltb, if◌then◌else◌, length,
}
use traffic_director.Exec.{Exec, pure, raise, lift, modify, update, map_err, ◌>>=◌, ◌>>◌}
use traffic_director.Result.{
  ok, err, quota_exceeded, unexpected_eof, invalid_data, expect, ◌>>=◌ as bind, Result,
}
use traffic_director.Window.{encode_raw, track_c2b, InflightWindows}
use traffic_director.Session.Subscriptions.{track, Subscriptions}
use traffic_director.Session.Conn.{send, Conn}
use traffic_director.Session.Keepalive.{from_millis, from_secs}

abbrev pub broker_retry_initial : ℕ
broker_retry_initial = from_millis 100

abbrev pub broker_retry_max : ℕ
broker_retry_max = from_secs 5

abbrev pub outage_buffer_max_bytes : ℕ
outage_buffer_max_bytes = 1048576

pub record OutageBuffer : Type 0 where
  pub entries : List BufferedPublish
  pub bytes : ℕ

abbrev pub empty_buffer : OutageBuffer
empty_buffer = record { entries = []; bytes = 0 }

-- `self.bytes` never passes the maximum, so the sum does not wrap a `usize`.
unfoldable pub push : OutageBuffer → ℕ → Bytes → ℕ → Result OutageBuffer
push b packet_id raw qos =
    if ltb outage_buffer_max_bytes (b.bytes + length raw)
    then err quota_exceeded
    else ok (record {
      entries = b.entries ++ record { packet_id = packet_id; raw = raw; qos = qos } ∷ [];
      bytes = b.bytes + length raw;
    })

-- What `service_outage_packet` borrows of the session.
pub record Served (C : Type 0) : Type 0 where
  pub client : Conn C
  pub buffer : OutageBuffer
  pub subscriptions : Subscriptions
  pub windows : InflightWindows

module _ {C : Type 0} (lib : CodecLib C) where
  -- `client.send(p).await.map_err(invalid_data)?`
  client_send : MqttPacket → Exec (Served C) (Unit {0})
  unfolding send
  client_send p s =
      let (r, client) = send lib s.client p in
      (map_err r invalid_data, record s { client = client })

  buffer_push : ℕ → Bytes → QoS → Exec (Served C) (Unit {0})
  unfolding push
  buffer_push id raw qos =
      update
        (λ s. bind (push s.buffer id raw (lib.qos_byte qos)) (λ b. ok (record s { buffer = b })))

  windows_track : MqttPacket → Exec (Served C) (Unit {0})
  windows_track p =
      update (λ s. bind (track_c2b lib s.windows p) (λ w. ok (record s { windows = w })))

  subscriptions_track : MqttPacket → Exec (Served C) (Unit {0})
  subscriptions_track p = modify (λ s. record s { subscriptions = track lib s.subscriptions p })

  -- The `match qos` of the PUBLISH arms.
  defer_encoded : QoS → Option ℕ → Bytes → Exec (Served C) (Unit {0})
  unfolding buffer_push
  defer_encoded at_most_once packet_id raw = pure tt
  defer_encoded qos packet_id raw = do id ← lift (expect packet_id); buffer_push id raw qos

  -- The PUBLISH arms: encoded first, dropped if QoS 0, else buffered under its identifier.
  defer_publish : QoS → Option ℕ → MqttPacket → Exec (Served C) (Unit {0})
  unfolding defer_encoded
  defer_publish qos packet_id p = do raw ← lift (encode_raw lib p); defer_encoded qos packet_id raw

  -- The PUBREL arms.
  defer_release : ℕ → MqttPacket → Exec (Served C) (Unit {0})
  unfolding buffer_push
  defer_release id p = do raw ← lift (encode_raw lib p); buffer_push id raw exactly_once

  -- The SUBSCRIBE and UNSUBSCRIBE arms.
  defer_subscription : ℕ → MqttPacket → Exec (Served C) (Unit {0})
  unfolding buffer_push subscriptions_track
  defer_subscription id p = do
    subscriptions_track p
    raw ← lift (encode_raw lib p)
    buffer_push id raw at_least_once

  unfoldable pub service_outage_packet : MqttPacket → Exec (Served C) (Unit {0})
  unfolding client_send windows_track defer_publish defer_release defer_subscription
  service_outage_packet (v3 (PacketV3.publish_ack id)) =
      windows_track (v3 (PacketV3.publish_ack id))
  service_outage_packet (v3 (PacketV3.publish_received id)) =
      windows_track (v3 (PacketV3.publish_received id))
  service_outage_packet (v3 (PacketV3.publish_complete id)) =
      windows_track (v3 (PacketV3.publish_complete id))
  service_outage_packet (v5 (PacketV5.publish_ack a)) = windows_track (v5 (PacketV5.publish_ack a))
  service_outage_packet (v5 (PacketV5.publish_received a)) =
      windows_track (v5 (PacketV5.publish_received a))
  service_outage_packet (v5 (PacketV5.publish_complete a)) =
      windows_track (v5 (PacketV5.publish_complete a))
  service_outage_packet (v3 (PacketV3.publish p)) =
      defer_publish p.qos p.packet_id (v3 (PacketV3.publish p))
  service_outage_packet (v3 (PacketV3.publish_release id)) =
      defer_release id (v3 (PacketV3.publish_release id))
  service_outage_packet (v3 PacketV3.ping_request) = client_send (v3 PacketV3.ping_response)
  service_outage_packet (v3 (PacketV3.subscribe id filters)) =
      defer_subscription id (v3 (PacketV3.subscribe id filters))
  service_outage_packet (v3 (PacketV3.unsubscribe id filters)) =
      defer_subscription id (v3 (PacketV3.unsubscribe id filters))
  service_outage_packet (v3 PacketV3.disconnect) = raise unexpected_eof
  service_outage_packet (v5 (PacketV5.publish p)) =
      defer_publish p.qos p.packet_id (v5 (PacketV5.publish p))
  service_outage_packet (v5 (PacketV5.publish_release a)) =
      defer_release a.packet_id (v5 (PacketV5.publish_release a))
  service_outage_packet (v5 PacketV5.ping_request) = client_send (v5 PacketV5.ping_response)
  service_outage_packet (v5 (PacketV5.subscribe p)) =
      defer_subscription p.packet_id (v5 (PacketV5.subscribe p))
  service_outage_packet (v5 (PacketV5.unsubscribe p)) =
      defer_subscription p.packet_id (v5 (PacketV5.unsubscribe p))
  service_outage_packet (v5 (PacketV5.disconnect d)) = raise unexpected_eof
  service_outage_packet _ = pure tt
