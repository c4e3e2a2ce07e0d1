-- ===== src/Session/Outage/Cases.antt =====
-- Case rules for `service_outage_packet` of src/session/outage.rs and its arms.
use traffic_director.Session.Conn.{Conn}
use traffic_director.Codec.{
  QoS, at_most_once, at_least_once, exactly_once, PacketV3, PacketV5, MqttPacket, v3, v5, CodecLib,
  packet_type,
}
use traffic_director.Prelude.{Bytes, ℕ, ◌≡◌, Bool, true, false, Option, none, some, refl}
use traffic_director.Result.{ok}
use traffic_director.Exec.Cases.{settle_bind_cases, lift_cases}
use traffic_director.Session.Outage.{
  Served, push, client_send, buffer_push, windows_track, subscriptions_track, defer_encoded,
  defer_publish, defer_release, defer_subscription, service_outage_packet, OutageBuffer,
}
use traffic_director.Session.Subscriptions.{track}
use traffic_director.Window.{encode_raw, track_c2b, InflightWindows}

abbrev pub is_ping : MqttPacket → Bool
is_ping (v3 PacketV3.ping_request) = true
is_ping (v5 PacketV5.ping_request) = true
is_ping _ = false

module _ {C : Type 0} (lib : CodecLib C) where
  buffer_push-keeps :
      (P : Served C → Type 0) (s : Served C) (id : ℕ) (raw : Bytes) (qos : QoS)
      → P s
      → ((b : OutageBuffer)
          → push s.buffer id raw (lib.qos_byte qos) ≡ ok b
          → P (record s { buffer = b }))
      → P (buffer_push lib id raw qos s).1
  unfolding buffer_push
  buffer_push-keeps P s id raw qos same new =
      settle_bind_cases P s (push s.buffer id raw (lib.qos_byte qos)) (λ b. record s { buffer = b })
        same new

  defer_encoded-keeps :
      (P : Served C → Type 0) (s : Served C) (qos : QoS) (id : Option ℕ) (raw : Bytes)
      → P s
      → ((i : ℕ) (b : OutageBuffer)
          → push s.buffer i raw (lib.qos_byte qos) ≡ ok b
          → P (record s { buffer = b }))
      → P (defer_encoded lib qos id raw s).1
  unfolding defer_encoded
  defer_encoded-keeps P s at_most_once id raw same new = same
  defer_encoded-keeps P s at_least_once none raw same new = same
  defer_encoded-keeps P s exactly_once none raw same new = same
  defer_encoded-keeps P s at_least_once (some i) raw same new =
      buffer_push-keeps P s i raw at_least_once same (new i)
  defer_encoded-keeps P s exactly_once (some i) raw same new =
      buffer_push-keeps P s i raw exactly_once same (new i)

  -- Each arm that buffers, with the packet that was encoded.
  defer_publish-keeps :
      (P : Served C → Type 0) (s : Served C) (qos : QoS) (id : Option ℕ) (p : MqttPacket)
      → P s
      → ((i : ℕ) (q : ℕ) (raw : Bytes) (b : OutageBuffer)
          → encode_raw lib p ≡ ok raw
          → push s.buffer i raw q ≡ ok b
          → P (record s { buffer = b }))
      → P (defer_publish lib qos id p s).1
  unfolding defer_publish
  defer_publish-keeps P s qos id p same new =
      lift_cases P s (encode_raw lib p) (defer_encoded lib qos id) same
        (λ raw e. defer_encoded-keeps P s qos id raw same (λ i b. new i (lib.qos_byte qos) raw b e))

  defer_release-keeps :
      (P : Served C → Type 0) (s : Served C) (id : ℕ) (p : MqttPacket)
      → P s
      → ((i : ℕ) (q : ℕ) (raw : Bytes) (b : OutageBuffer)
          → encode_raw lib p ≡ ok raw
          → push s.buffer i raw q ≡ ok b
          → P (record s { buffer = b }))
      → P (defer_release lib id p s).1
  unfolding defer_release
  defer_release-keeps P s id p same new =
      lift_cases P s (encode_raw lib p) (λ raw. buffer_push lib id raw exactly_once) same
        (λ raw e.
          buffer_push-keeps P s id raw exactly_once same
            (λ b. new id (lib.qos_byte exactly_once) raw b e))

  defer_subscription-keeps :
      (P : Served C → Type 0) (s : Served C) (id : ℕ) (p : MqttPacket)
      → P (record s { subscriptions = track lib s.subscriptions p })
      → ((i : ℕ) (q : ℕ) (raw : Bytes) (b : OutageBuffer)
          → encode_raw lib p ≡ ok raw
          → push s.buffer i raw q ≡ ok b
          → P (record s { subscriptions = track lib s.subscriptions p; buffer = b }))
      → P (defer_subscription lib id p s).1
  unfolding defer_subscription subscriptions_track
  defer_subscription-keeps P s id p same new =
      let t : Served C = record s { subscriptions = track lib s.subscriptions p } in
      lift_cases P t (encode_raw lib p) (λ raw. buffer_push lib id raw at_least_once) same
        (λ raw e.
          buffer_push-keeps P t id raw at_least_once same
            (λ b. new id (lib.qos_byte at_least_once) raw b e))

  windows_track-keeps :
      (P : Served C → Type 0) (s : Served C) (p : MqttPacket)
      → P s
      → ((w : InflightWindows) → track_c2b lib s.windows p ≡ ok w → P (record s { windows = w }))
      → P (windows_track lib p s).1
  unfolding windows_track
  windows_track-keeps P s p same new =
      settle_bind_cases P s (track_c2b lib s.windows p) (λ w. record s { windows = w }) same new

  -- A predicate of the state holds after a packet, whatever the outcome, if each of the four kinds
  -- of change keeps it: the table alone, the table and a buffered packet, the windows, the client;
  -- the last two where the packet is nothing to the table.
  pub service_cases :
      (P : Served C → Type 0) (s : Served C) (p : MqttPacket)
      → P (record s { subscriptions = track lib s.subscriptions p })
      → ((b : OutageBuffer) (i q n : ℕ) (raw : Bytes)
          → encode_raw lib p ≡ ok raw
          → packet_type p ≡ some n
          → push s.buffer i raw q ≡ ok b
          → P (record s { subscriptions = track lib s.subscriptions p; buffer = b }))
      → ((w : InflightWindows)
          → track lib s.subscriptions p ≡ s.subscriptions
          → track_c2b lib s.windows p ≡ ok w
          → P (record s { windows = w }))
      → ((c : Conn C)
          → track lib s.subscriptions p ≡ s.subscriptions
          → is_ping p ≡ true
          → P (record s { client = c }))
      → P (service_outage_packet lib p s).1
  unfolding service_outage_packet track client_send
  service_cases P s (v3 (PacketV3.publish_ack id)) t b w c =
      windows_track-keeps P s _ t (λ x. w x refl)
  service_cases P s (v3 (PacketV3.publish_received id)) t b w c =
      windows_track-keeps P s _ t (λ x. w x refl)
  service_cases P s (v3 (PacketV3.publish_complete id)) t b w c =
      windows_track-keeps P s _ t (λ x. w x refl)
  service_cases P s (v3 (PacketV3.publish p)) t b w c =
      defer_publish-keeps P s p.qos p.packet_id _ t (λ i q raw x e. b x i q 3 raw e refl)
  service_cases P s (v3 (PacketV3.publish_release id)) t b w c =
      defer_release-keeps P s id _ t (λ i q raw x e. b x i q 6 raw e refl)
  service_cases P s (v3 (PacketV3.subscribe id filters)) t b w c =
      defer_subscription-keeps P s id _ t (λ i q raw x e. b x i q 8 raw e refl)
  service_cases P s (v3 (PacketV3.unsubscribe id filters)) t b w c =
      defer_subscription-keeps P s id _ t (λ i q raw x e. b x i q 10 raw e refl)
  service_cases P s (v3 PacketV3.ping_request) t b w c = c _ refl refl
  service_cases P s (v5 (PacketV5.publish_ack a)) t b w c =
      windows_track-keeps P s _ t (λ x. w x refl)
  service_cases P s (v5 (PacketV5.publish_received a)) t b w c =
      windows_track-keeps P s _ t (λ x. w x refl)
  service_cases P s (v5 (PacketV5.publish_complete a)) t b w c =
      windows_track-keeps P s _ t (λ x. w x refl)
  service_cases P s (v5 (PacketV5.publish p)) t b w c =
      defer_publish-keeps P s p.qos p.packet_id _ t (λ i q raw x e. b x i q 3 raw e refl)
  service_cases P s (v5 (PacketV5.publish_release a)) t b w c =
      defer_release-keeps P s a.packet_id _ t (λ i q raw x e. b x i q 6 raw e refl)
  service_cases P s (v5 (PacketV5.subscribe p)) t b w c =
      defer_subscription-keeps P s p.packet_id _ t (λ i q raw x e. b x i q 8 raw e refl)
  service_cases P s (v5 (PacketV5.unsubscribe p)) t b w c =
      defer_subscription-keeps P s p.packet_id _ t (λ i q raw x e. b x i q 10 raw e refl)
  service_cases P s (v5 PacketV5.ping_request) t b w c = c _ refl refl
  service_cases P s _ t b w c = t
