-- ===== src/Session/Outage/Service.antt =====
-- What `service_outage_packet` of src/session/outage.rs promises for each client packet.
use mathlib.Core.Path.{subst}
use traffic_director.Codec.{
  QoS, at_most_once, at_least_once, exactly_once, ProtocolVersion, PacketV3, PacketV5, MqttPacket,
  v3, v5, CodecLib, HasType, HasMqttHeaders, packet_type,
}
use traffic_director.Prelude.{
  Bytes, ℕ, ◌+◌, ◌≤◌, ◌<◌, ◌≡◌, refl, ◌⊎◌, inl, inr, false, Option, none, some, [], ◌∷◌, ◌++◌,
  arith, length, ◌∙◌,
}
use traffic_director.Result.{quota_exceeded, ok, err}
use traffic_director.Session.Outage.{
  Served, defer_publish, defer_release, defer_subscription, buffer_push, service_outage_packet,
  outage_buffer_max_bytes, defer_encoded, subscriptions_track,
}
use traffic_director.Session.Outage.Buffer.{IsBuffer, push-IsBuffer, IsDeferred, push_lem}
use traffic_director.Session.Outage.Cases.{is_ping, service_cases}
use traffic_director.Window.Frames.{encode_raw-HasType}
use traffic_director.Window.Invariant.{IsValid, track_c2b-IsValid}
use traffic_director.Session.Subscriptions.Shape.{IsRestorable, track-IsRestorable, IsOf}
use traffic_director.Session.Subscriptions.{track}
use traffic_director.Window.{encode_raw}

-- The identifier and QoS under which a packet is held back for the broker.
abbrev held_publish : QoS → Option ℕ → Option (ℕ × QoS)
held_publish at_most_once id = none
held_publish qos none = none
held_publish qos (some id) = some (id, qos)

abbrev pub held : MqttPacket → Option (ℕ × QoS)
held (v3 (PacketV3.publish p)) = held_publish p.qos p.packet_id
held (v3 (PacketV3.publish_release id)) = some (id, exactly_once)
held (v3 (PacketV3.subscribe id filters)) = some (id, at_least_once)
held (v3 (PacketV3.unsubscribe id filters)) = some (id, at_least_once)
held (v5 (PacketV5.publish p)) = held_publish p.qos p.packet_id
held (v5 (PacketV5.publish_release a)) = some (a.packet_id, exactly_once)
held (v5 (PacketV5.subscribe p)) = some (p.packet_id, at_least_once)
held (v5 (PacketV5.unsubscribe p)) = some (p.packet_id, at_least_once)
held _ = none

packet_type_cases :
    (p : MqttPacket) (n : ℕ) → packet_type p ≡ some n → (n ≡ 3) ⊎ (n ≡ 6) ⊎ (n ≡ 8) ⊎ (n ≡ 10)
packet_type_cases p n h = ground arith

HasType-IsDeferred :
    (p : MqttPacket) (n i q : ℕ) (raw : Bytes)
    → packet_type p ≡ some n
    → HasType n raw
    → IsDeferred (record { packet_id = i; raw = raw; qos = q })
HasType-IsDeferred p n i q raw e h = elim (packet_type_cases p n e) [
  | inl x ↦ inl (subst (λ t. HasType t raw) x h)
  | inr (inl x) ↦ inr (inl (subst (λ t. HasType t raw) x h))
  | inr (inr (inl x)) ↦ inr (inr (inl (subst (λ t. HasType t raw) x h)))
  | inr (inr (inr x)) ↦ inr (inr (inr (subst (λ t. HasType t raw) x h)))
]

-- What holds of the borrowed state between two packets.
pub record IsServed {C : Type 0} (lib : CodecLib C) (ver : ProtocolVersion) (s : Served C)
    : Type 0 where
  pub buffer_ok : IsBuffer s.buffer
  pub windows_ok : IsValid s.windows
  pub subscriptions_ok : IsRestorable lib ver s.subscriptions

module _ {C : Type 0} (lib : CodecLib C) where
  -- Whatever the outcome, a packet of the session's version keeps the outage buffer within its
  -- bound and correctly counted, the windows valid and the subscription table restorable.
  pub service-IsServed :
      HasMqttHeaders lib
      → (ver : ProtocolVersion) (s : Served C) (p : MqttPacket) → IsOf ver p
      → IsServed lib ver s
      → IsServed lib ver (service_outage_packet lib p s).1
  service-IsServed laws ver s p of v =
      service_cases lib (IsServed lib ver) s p
        (record { buffer_ok = v.buffer_ok; windows_ok = v.windows_ok; subscriptions_ok = table })
        (λ b i q n raw e t h. record {
          buffer_ok =
              push-IsBuffer s.buffer i raw q
                (HasType-IsDeferred p n i q raw t (encode_raw-HasType lib laws p raw n e t))
                v.buffer_ok h;
          windows_ok = v.windows_ok;
          subscriptions_ok = table;
        })
        (λ w same h. record {
          buffer_ok = v.buffer_ok;
          windows_ok = track_c2b-IsValid lib laws s.windows p v.windows_ok h;
          subscriptions_ok = v.subscriptions_ok;
        })
        (λ c same h. record {
          buffer_ok = v.buffer_ok;
          windows_ok = v.windows_ok;
          subscriptions_ok = v.subscriptions_ok;
        })
    where
      table : IsRestorable lib ver (track lib s.subscriptions p)
      table = track-IsRestorable lib ver s.subscriptions p of v.subscriptions_ok

  -- Unless the packet is a PINGREQ, the client is sent nothing, whatever the outcome: no PUBACK,
  -- PUBREC, PUBCOMP, SUBACK or UNSUBACK is made up on the broker's behalf.
  pub service-silent :
      (s : Served C) (p : MqttPacket)
      → is_ping p ≡ false
      → (service_outage_packet lib p s).1.client ≡ s.client
  service-silent s p no_ping =
      service_cases lib (λ s'. s'.client ≡ s.client) s p refl (λ b i q n raw e t h. refl)
        (λ w same h. refl) (λ c same h. cc)

  buffer_push_fits :
      (s : Served C) (id : ℕ) (raw : Bytes) (qos : QoS)
      → s.buffer.bytes + length raw ≤ outage_buffer_max_bytes
      → buffer_push lib id raw qos s ≡ (
        ok tt,
        record s {
          buffer = record {
            entries =
                s.buffer.entries
                ++ record { packet_id = id; raw = raw; qos = lib.qos_byte qos } ∷ [];
            bytes = s.buffer.bytes + length raw;
          };
        },
      )
  unfolding buffer_push
  buffer_push_fits s id raw qos fits = rw ((push_lem s.buffer id raw (lib.qos_byte qos)).0 fits)

  buffer_push_full :
      (s : Served C) (id : ℕ) (raw : Bytes) (qos : QoS)
      → outage_buffer_max_bytes < s.buffer.bytes + length raw
      → buffer_push lib id raw qos s ≡ (err quota_exceeded, s)
  unfolding buffer_push
  buffer_push_full s id raw qos full = rw ((push_lem s.buffer id raw (lib.qos_byte qos)).1 full)

  defer_publish-held :
      (s : Served C) (q : QoS) (i : Option ℕ) (p : MqttPacket) (raw : Bytes) (id : ℕ) (qos : QoS)
      → held_publish q i ≡ some (id, qos)
      → encode_raw lib p ≡ ok raw
      → defer_publish lib q i p s ≡ buffer_push lib id raw qos s
  unfolding defer_publish defer_encoded
  defer_publish-held s at_most_once i p raw id qos h e = cc
  defer_publish-held s at_least_once none p raw id qos h e = cc
  defer_publish-held s exactly_once none p raw id qos h e = cc
  defer_publish-held s at_least_once (some i) p raw id qos h e = rw e (cc)
  defer_publish-held s exactly_once (some i) p raw id qos h e = rw e (cc)

  defer_release-held :
      (s : Served C) (i : ℕ) (p : MqttPacket) (raw : Bytes) (id : ℕ) (qos : QoS)
      → ◌≡◌ {A = Option (ℕ × QoS)} (some (i, exactly_once)) (some (id, qos))
      → encode_raw lib p ≡ ok raw
      → defer_release lib i p s ≡ buffer_push lib id raw qos s
  unfolding defer_release
  defer_release-held s i p raw id qos h e = rw e (cc)

  defer_subscription-held :
      (s : Served C) (i : ℕ) (p : MqttPacket) (raw : Bytes) (id : ℕ) (qos : QoS)
      → ◌≡◌ {A = Option (ℕ × QoS)} (some (i, at_least_once)) (some (id, qos))
      → encode_raw lib p ≡ ok raw
      → defer_subscription lib i p s
        ≡ buffer_push lib id raw qos (record s { subscriptions = track lib s.subscriptions p })
  unfolding defer_subscription subscriptions_track
  defer_subscription-held s i p raw id qos h e = rw e (cc)

  -- A packet that is held back is one `buffer_push` of its encoding, with the table tracked first.
  service_held :
      (s : Served C) (p : MqttPacket) (raw : Bytes) (id : ℕ) (qos : QoS)
      → held p ≡ some (id, qos)
      → encode_raw lib p ≡ ok raw
      → service_outage_packet lib p s
        ≡ buffer_push lib id raw qos (record s { subscriptions = track lib s.subscriptions p })
  unfolding service_outage_packet track
  service_held s (v3 (PacketV3.publish p)) raw id qos h e =
      defer_publish-held s p.qos p.packet_id _ raw id qos h e
  service_held s (v3 (PacketV3.publish_release i)) raw id qos h e =
      defer_release-held s i _ raw id qos h e
  service_held s (v3 (PacketV3.subscribe i filters)) raw id qos h e =
      defer_subscription-held s i (v3 (PacketV3.subscribe i filters)) raw id qos h e
  service_held s (v3 (PacketV3.unsubscribe i filters)) raw id qos h e =
      defer_subscription-held s i (v3 (PacketV3.unsubscribe i filters)) raw id qos h e
  service_held s (v5 (PacketV5.publish p)) raw id qos h e =
      defer_publish-held s p.qos p.packet_id _ raw id qos h e
  service_held s (v5 (PacketV5.publish_release a)) raw id qos h e =
      defer_release-held s a.packet_id _ raw id qos h e
  service_held s (v5 (PacketV5.subscribe p)) raw id qos h e =
      defer_subscription-held s p.packet_id (v5 (PacketV5.subscribe p)) raw id qos h e
  service_held s (v5 (PacketV5.unsubscribe p)) raw id qos h e =
      defer_subscription-held s p.packet_id (v5 (PacketV5.unsubscribe p)) raw id qos h e
  service_held s _ raw id qos h e = cc

  -- A publish of QoS 1 or 2 with an identifier, a PUBREL, a SUBSCRIBE or an UNSUBSCRIBE that can be
  -- encoded is appended to the buffer, under its identifier and QoS, if the buffer then holds at
  -- most 1 MiB, and the call succeeds; else the call ends with `QuotaExceeded` and the buffer is as
  -- it was. Either way the subscription table has tracked the packet and nothing else changes.
  pub service-holds :
      (s : Served C) (p : MqttPacket) (raw : Bytes) (id : ℕ) (qos : QoS)
      → held p ≡ some (id, qos)
      → encode_raw lib p ≡ ok raw
      → (s.buffer.bytes + length raw ≤ outage_buffer_max_bytes
          → service_outage_packet lib p s ≡ (
            ok tt,
            record s {
              subscriptions = track lib s.subscriptions p;
              buffer = record {
                entries =
                    s.buffer.entries
                    ++ record { packet_id = id; raw = raw; qos = lib.qos_byte qos } ∷ [];
                bytes = s.buffer.bytes + length raw;
              };
            },
          ))
        × (outage_buffer_max_bytes < s.buffer.bytes + length raw
            → service_outage_packet lib p s
              ≡ (err quota_exceeded, record s { subscriptions = track lib s.subscriptions p }))
  service-holds s p raw id qos h e = (
    λ fits. service_held s p raw id qos h e ∙ buffer_push_fits _ id raw qos fits,
    λ full. service_held s p raw id qos h e ∙ buffer_push_full _ id raw qos full,
  )
