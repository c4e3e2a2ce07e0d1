-- ===== src/Window/Exchange.antt =====
-- Whole QoS exchanges through the windows of src/window.rs.
use traffic_director.Window.Vec.Order.{vec_contains-vec_insert}
use traffic_director.Window.Vec.{
  WindowState, c2b_pubrel_sent, b2c_pubrec_forwarded, Slot, Slots, vec_remove, vec_contains,
  vec_insert, vec_set_state,
}
use traffic_director.Codec.{exactly_once, PacketV3, PacketV5, MqttPacket, v3, v5, CodecLib}
use traffic_director.Prelude.{Bytes, ℕ, ◌≡◌, refl, true, false, some, [], ◌∷◌, arith, ap}
use traffic_director.Result.{Result, ok, ◌>>=◌}
use traffic_director.Window.Signals.{
  signal, publishes, acknowledges, receives, releases, completes, unrelated, PacketSignal,
}
use traffic_director.Window.{
  track_c2b, track_b2c, c2b_insert, b2c_insert, c2b_transition, b2c_transition, c2b_remove,
  b2c_remove, encode_raw, InflightWindows,
}

module _ {C : Type 0} (lib : CodecLib C) where
  -- `track_c2b` through the packet's signal.
  on_client : InflightWindows → PacketSignal → MqttPacket → Result InflightWindows
  on_client w (publishes qos id) p = c2b_insert lib w qos id p
  on_client w (releases id) p = c2b_transition lib w id c2b_pubrel_sent p
  on_client w (acknowledges id) p = ok (b2c_remove w id)
  on_client w (receives id) p = ok (b2c_transition w id b2c_pubrec_forwarded)
  on_client w (completes id) p = ok (b2c_remove w id)
  on_client w unrelated p = ok w

  on_broker : InflightWindows → PacketSignal → MqttPacket → Result InflightWindows
  on_broker w (publishes qos id) p = b2c_insert lib w qos id p
  on_broker w (acknowledges id) p = ok (c2b_remove w id)
  on_broker w (completes id) p = ok (c2b_remove w id)
  on_broker w _ p = ok w

  track_c2b-signal :
      (w : InflightWindows) (p : MqttPacket) → track_c2b lib w p ≡ on_client w (signal p) p
  unfolding track_c2b on_client
  track_c2b-signal w (v3 (PacketV3.publish p)) = refl
  track_c2b-signal w (v5 (PacketV5.publish p)) = refl
  track_c2b-signal w (v3 (PacketV3.publish_ack p)) = refl
  track_c2b-signal w (v5 (PacketV5.publish_ack p)) = refl
  track_c2b-signal w (v3 (PacketV3.publish_received p)) = refl
  track_c2b-signal w (v5 (PacketV5.publish_received p)) = refl
  track_c2b-signal w (v3 (PacketV3.publish_release p)) = refl
  track_c2b-signal w (v5 (PacketV5.publish_release p)) = refl
  track_c2b-signal w (v3 (PacketV3.publish_complete p)) = refl
  track_c2b-signal w (v5 (PacketV5.publish_complete p)) = refl
  track_c2b-signal w _ = refl

  track_b2c-signal :
      (w : InflightWindows) (p : MqttPacket) → track_b2c lib w p ≡ on_broker w (signal p) p
  unfolding track_b2c on_broker
  track_b2c-signal w (v3 (PacketV3.publish p)) = refl
  track_b2c-signal w (v5 (PacketV5.publish p)) = refl
  track_b2c-signal w (v3 (PacketV3.publish_ack p)) = refl
  track_b2c-signal w (v5 (PacketV5.publish_ack p)) = refl
  track_b2c-signal w (v3 (PacketV3.publish_received p)) = refl
  track_b2c-signal w (v5 (PacketV5.publish_received p)) = refl
  track_b2c-signal w (v3 (PacketV3.publish_release p)) = refl
  track_b2c-signal w (v5 (PacketV5.publish_release p)) = refl
  track_b2c-signal w (v3 (PacketV3.publish_complete p)) = refl
  track_b2c-signal w (v5 (PacketV5.publish_complete p)) = refl
  track_b2c-signal w _ = refl

vec_remove_absent : (v : Slots) (id : ℕ) → vec_contains v id ≡ false → vec_remove v id ≡ v
unfolding vec_remove vec_contains
vec_remove_absent [] id h = refl
vec_remove_absent ((k, e) ∷ v) id h = ground (arith, vec_remove_absent v id)

vec_remove-vec_insert :
    (v : Slots) (id : ℕ) (e : Slot) → vec_remove (vec_insert v id e) id ≡ vec_remove v id
unfolding vec_remove vec_insert
vec_remove-vec_insert [] id e = ground arith
vec_remove-vec_insert ((k, x) ∷ v) id e = ground (arith, vec_remove-vec_insert v id e)

vec_remove-vec_set_state :
    (v : Slots) (id : ℕ) (s : WindowState) → vec_remove (vec_set_state v id s) id ≡ vec_remove v id
unfolding vec_remove vec_set_state
vec_remove-vec_set_state [] id s = refl
vec_remove-vec_set_state ((k, x) ∷ v) id s = ground (arith, vec_remove-vec_set_state v id s)

vec_contains_self : (v : Slots) (id : ℕ) (e : Slot) → vec_contains (vec_insert v id e) id ≡ true
vec_contains_self v id e = ground (arith, vec_contains-vec_insert v id id e)

module _ {C : Type 0} (lib : CodecLib C) (w : InflightWindows) (id : ℕ) where
  -- The client publishes with QoS 2, the broker's PUBREC, the client's PUBREL and the broker's
  -- PUBCOMP follow. If the two client packets can be encoded and the identifier was not in flight,
  -- the four calls return the windows that were there before, slot for slot.
  pub qos2_upstream :
      (publish pubrec pubrel pubcomp : MqttPacket) {raw raw' : Bytes}
      → signal publish ≡ publishes exactly_once (some id)
      → signal pubrec ≡ receives id
      → signal pubrel ≡ releases id
      → signal pubcomp ≡ completes id
      → encode_raw lib publish ≡ ok raw
      → encode_raw lib pubrel ≡ ok raw'
      → vec_contains w.c2b id ≡ false
      → (do
        w₁ ← track_c2b lib w publish
        w₂ ← track_b2c lib w₁ pubrec
        w₃ ← track_c2b lib w₂ pubrel
        track_b2c lib w₃ pubcomp)
        ≡ ok w
  unfolding on_client on_broker c2b_insert c2b_transition c2b_remove
  qos2_upstream publish pubrec pubrel pubcomp {raw} {raw'} s₁ s₂ s₃ s₄ e e' new =
      simp
        (
          track_c2b-signal, track_b2c-signal, s₁, s₂, s₃, s₄, e, e', vec_contains_self,
          vec_remove-vec_insert,
        )
        (ap (λ (c : Slots). ok (record w { c2b = c })) (vec_remove_absent w.c2b id new))

  -- The broker publishes with QoS 2, the client's PUBREC, the broker's PUBREL and the client's
  -- PUBCOMP follow. If the publish can be encoded and the identifier was not in flight, the four
  -- calls return the windows that were there before, slot for slot.
  pub qos2_downstream :
      (publish pubrec pubrel pubcomp : MqttPacket) {raw : Bytes}
      → signal publish ≡ publishes exactly_once (some id)
      → signal pubrec ≡ receives id
      → signal pubrel ≡ releases id
      → signal pubcomp ≡ completes id
      → encode_raw lib publish ≡ ok raw
      → vec_contains w.b2c id ≡ false
      → (do
        w₁ ← track_b2c lib w publish
        w₂ ← track_c2b lib w₁ pubrec
        w₃ ← track_b2c lib w₂ pubrel
        track_c2b lib w₃ pubcomp)
        ≡ ok w
  unfolding on_client on_broker b2c_insert b2c_transition b2c_remove
  qos2_downstream publish pubrec pubrel pubcomp s₁ s₂ s₃ s₄ e new =
      simp
        (
          track_c2b-signal, track_b2c-signal, s₁, s₂, s₃, s₄, e, vec_remove-vec_set_state,
          vec_remove-vec_insert,
        )
        (ap (λ (c : Slots). ok (record w { b2c = c })) (vec_remove_absent w.b2c id new))
