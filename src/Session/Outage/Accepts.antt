-- ===== src/Session/Outage/Accepts.antt =====
-- A publish that `service_outage_packet` of src/session/outage.rs accepts is in the buffer.
use traffic_director.Window.Frames.{encode_raw-HasType}
use mathlib.Core.Path.{subst}
use traffic_director.Window.{is_at_most_once, encode_raw}
use traffic_director.Exec.Post.{Post, Post-settle, Post-step_eq}
use traffic_director.Session.Outage.{
  OutageBuffer, Served, push, buffer_push, defer_encoded, defer_publish, service_outage_packet,
  outage_buffer_max_bytes,
}
use traffic_director.Window.Signals.{publishes, signal}
use traffic_director.Registry.{BufferedPublish}
use traffic_director.Codec.{
  QoS, at_most_once, at_least_once, exactly_once, PacketV3, PacketV5, MqttPacket, v3, v5, CodecLib,
  HasType, HasMqttHeaders, packet_type,
}
use traffic_director.Prelude.{
  Bytes, ℕ, ◌+◌, ◌≡◌, refl, sym, ◌⊎◌, inl, inr, false, Option, none, some, [], ◌∷◌, ◌++◌, arith,
  ltb, Bool-cases, length, Any, Any-snoc,
}
use traffic_director.Result.{ok, bind-ok}
use traffic_director.Session.Replay.Flush.{kind_of}

-- A buffered PUBLISH or PUBREL of the identifier.
abbrev pub Publishes : ℕ → BufferedPublish → Type 0
Publishes id e = (e.packet_id ≡ id) × ((kind_of e.raw ≡ 3) ⊎ (kind_of e.raw ≡ 6))

pub push-entries :
    (b b' : OutageBuffer) (i : ℕ) (raw : Bytes) (q : ℕ)
    → push b i raw q ≡ ok b'
    → b'.entries ≡ b.entries ++ record { packet_id = i; raw = raw; qos = q } ∷ []
unfolding push
push-entries b b' i raw q h =
    elim (Bool-cases (ltb outage_buffer_max_bytes (b.bytes + length raw))) [
      | inl over ↦ ground arith
      | inr fits ↦ ground arith
    ]

HasType-kind_of : (n : ℕ) (raw : Bytes) → HasType n raw → kind_of raw ≡ n
HasType-kind_of n [] h = absurd h
HasType-kind_of n (b ∷ raw) h = h.1

module _ {C : Type 0} (lib : CodecLib C) (id : ℕ) where
  abbrev pub Buffers : {A : Type 0} → A → Served C → Type 0
  Buffers a s = Any (Publishes id) s.buffer.entries

  -- A publish that the outage service accepts is in the buffer.
  buffer_push-Buffers :
      (s : Served C) (raw : Bytes) (qos : QoS)
      → kind_of raw ≡ 3
      → Post Buffers (buffer_push lib id raw qos s)
  unfolding buffer_push
  buffer_push-Buffers s raw qos k = Post-settle Buffers s _ (λ s' e.
      let (b, h, t) = bind-ok (push s.buffer id raw (lib.qos_byte qos)) e in
      let same : b ≡ s'.buffer = cc in
      (subst (λ b. Any (Publishes id) b.entries) same
        (subst (Any (Publishes id)) (sym (push-entries s.buffer b id raw (lib.qos_byte qos) t))
          (Any-snoc (Publishes id) s.buffer.entries (refl, inl k)))))

  defer_encoded-Buffers :
      (q qos : QoS) (i : Option ℕ) (raw : Bytes) (s : Served C)
      → publishes q i ≡ publishes qos (some id)
      → is_at_most_once qos ≡ false
      → kind_of raw ≡ 3
      → Post Buffers (defer_encoded lib q i raw s)
  unfolding defer_encoded
  defer_encoded-Buffers at_most_once qos i raw s e q k = cc
  defer_encoded-Buffers at_least_once qos none raw s e q k = cc
  defer_encoded-Buffers exactly_once qos none raw s e q k = cc
  defer_encoded-Buffers at_least_once qos (some i) raw s e q k =
      let same : id ≡ i = cc in
      subst (λ j. Post Buffers (buffer_push lib j raw at_least_once s)) same
        (buffer_push-Buffers s raw at_least_once k)
  defer_encoded-Buffers exactly_once qos (some i) raw s e q k =
      let same : id ≡ i = cc in
      subst (λ j. Post Buffers (buffer_push lib j raw exactly_once s)) same
        (buffer_push-Buffers s raw exactly_once k)

  module _ (laws : HasMqttHeaders lib) where
    defer_publish-Buffers :
        (q qos : QoS) (i : Option ℕ) (p : MqttPacket) (s : Served C)
        → publishes q i ≡ publishes qos (some id)
        → is_at_most_once qos ≡ false
        → packet_type p ≡ some 3
        → Post Buffers (defer_publish lib q i p s)
    unfolding defer_publish
    defer_publish-Buffers q qos i p s e a t =
        Post-step_eq Buffers (encode_raw lib p) _ s (λ raw enc.
          defer_encoded-Buffers q qos i raw s e a
            (HasType-kind_of 3 raw (encode_raw-HasType lib laws p raw 3 enc t)))

    pub service-Buffers :
        (p : MqttPacket) (qos : QoS) (s : Served C)
        → signal p ≡ publishes qos (some id)
        → is_at_most_once qos ≡ false
        → Post Buffers (service_outage_packet lib p s)
    unfolding service_outage_packet
    service-Buffers (v3 (PacketV3.publish p)) qos s e a =
        defer_publish-Buffers p.qos qos p.packet_id _ s e a refl
    service-Buffers (v5 (PacketV5.publish p)) qos s e a =
        defer_publish-Buffers p.qos qos p.packet_id _ s e a refl
    service-Buffers p qos s e a = cc
