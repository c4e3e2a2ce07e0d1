-- ===== src/Window/Invariant.antt =====
-- The invariant of the in-flight windows, and that every operation of src/window.rs keeps it.
use traffic_director.Window.Frames.{encode_raw-HasType}
use traffic_director.Prelude.{
  refl, ℕ, ◌≡◌, Option, some, [], ◌∷◌, Bytes, arith, ◌==◌, Bool-cases, inl, inr,
}
use traffic_director.Result.{ok}
use traffic_director.Codec.{
  QoS, MqttPacket, CodecLib, HasType, HasMqttHeaders, packet_type, PacketV3, v3, PacketV5, v5,
}
use traffic_director.Window.Vec.{
  WindowState, c2b_publish_sent, c2b_pubrel_sent, b2c_publish_sent, b2c_pubrec_forwarded, Slot,
  Slots, vec_insert, vec_remove, vec_set_state,
}
use traffic_director.Window.Vec.Order.{
  Distinct, vec_insert-Distinct, vec_remove-Distinct, vec_set_state-Distinct,
}
use traffic_director.Window.Cases.{c2b_insert_cases, b2c_insert_cases, c2b_transition_cases}
use mathlib.Core.Path.{subst}
use traffic_director.Window.{
  c2b_insert, b2c_insert, c2b_transition, c2b_remove, b2c_remove, b2c_transition, track_c2b,
  track_b2c, InflightWindows, new, c2b_insert, c2b_transition, b2c_transition, c2b_remove,
  b2c_remove, insert_c2b_raw,
}

-- A state of the client-to-broker window, with a raw packet of the type that it resends.
abbrev pub IsC2B : Slot → Type 0
IsC2B (c2b_publish_sent, raw) = HasType 3 raw
IsC2B (c2b_pubrel_sent, raw) = HasType 6 raw
IsC2B (_, raw) = ⊥

abbrev pub IsB2C : Slot → Type 0
IsB2C (b2c_publish_sent, raw) = HasType 3 raw
IsB2C (b2c_pubrec_forwarded, raw) = HasType 3 raw
IsB2C (_, raw) = ⊥

abbrev pub AllSlots : (Slot → Type 0) → Slots → Type 0
AllSlots P [] = Unit
AllSlots P ((k, e) ∷ v) = P e × AllSlots P v

pub record IsValid (w : InflightWindows) : Type 0 where
  pub c2b_distinct : Distinct w.c2b
  pub b2c_distinct : Distinct w.b2c
  pub c2b_states : AllSlots IsC2B w.c2b
  pub b2c_states : AllSlots IsB2C w.b2c

module _ (P : Slot → Type 0) where
  vec_insert-AllSlots :
      (v : Slots) (id : ℕ) (e : Slot) → P e → AllSlots P v → AllSlots P (vec_insert v id e)
  unfolding vec_insert
  vec_insert-AllSlots [] id e p h = (p, tt)
  vec_insert-AllSlots ((k, x) ∷ v) id e p h = elim (Bool-cases (k == id)) [
    | inl same ↦ rw same (p, h.1)
    | inr other ↦ rw other (h.0, vec_insert-AllSlots v id e p h.1)
  ]

  vec_remove-AllSlots : (v : Slots) (id : ℕ) → AllSlots P v → AllSlots P (vec_remove v id)
  unfolding vec_remove
  vec_remove-AllSlots [] id h = tt
  vec_remove-AllSlots ((k, x) ∷ v) id h = elim (Bool-cases (k == id)) [
    | inl same ↦ rw same (vec_remove-AllSlots v id h.1)
    | inr other ↦ rw other (h.0, vec_remove-AllSlots v id h.1)
  ]

  vec_set_state-AllSlots :
      (v : Slots) (id : ℕ) (state : WindowState)
      → ((e : Slot) → P e → P (state, e.1))
      → AllSlots P v
      → AllSlots P (vec_set_state v id state)
  unfolding vec_set_state
  vec_set_state-AllSlots [] id state keep h = tt
  vec_set_state-AllSlots ((k, x) ∷ v) id state keep h = elim (Bool-cases (k == id)) [
    | inl same ↦ rw same (keep x h.0, h.1)
    | inr other ↦ rw other (h.0, vec_set_state-AllSlots v id state keep h.1)
  ]

pub new-IsValid : IsValid new
new-IsValid = omega arith

pub insert_c2b_raw-IsValid :
    (w : InflightWindows) (id : ℕ) (state : WindowState) (raw : Bytes)
    → IsC2B (state, raw)
    → IsValid w
    → IsValid (insert_c2b_raw w id state raw)
unfolding insert_c2b_raw
insert_c2b_raw-IsValid w id state raw p v = record {
  c2b_distinct = vec_insert-Distinct w.c2b id (state, raw) v.c2b_distinct;
  b2c_distinct = v.b2c_distinct;
  c2b_states = vec_insert-AllSlots IsC2B w.c2b id (state, raw) p v.c2b_states;
  b2c_states = v.b2c_states;
}

pub insert_b2c-IsValid :
    (w : InflightWindows) (id : ℕ) (e : Slot)
    → IsB2C e
    → IsValid w
    → IsValid (record w { b2c = vec_insert w.b2c id e })
insert_b2c-IsValid w id e p v = record {
  c2b_distinct = v.c2b_distinct;
  b2c_distinct = vec_insert-Distinct w.b2c id e v.b2c_distinct;
  c2b_states = v.c2b_states;
  b2c_states = vec_insert-AllSlots IsB2C w.b2c id e p v.b2c_states;
}

c2b_remove-IsValid : (w : InflightWindows) (id : ℕ) → IsValid w → IsValid (c2b_remove w id)
unfolding c2b_remove
c2b_remove-IsValid w id v = record {
  c2b_distinct = vec_remove-Distinct w.c2b id v.c2b_distinct;
  b2c_distinct = v.b2c_distinct;
  c2b_states = vec_remove-AllSlots IsC2B w.c2b id v.c2b_states;
  b2c_states = v.b2c_states;
}

b2c_remove-IsValid : (w : InflightWindows) (id : ℕ) → IsValid w → IsValid (b2c_remove w id)
unfolding b2c_remove
b2c_remove-IsValid w id v = record {
  c2b_distinct = v.c2b_distinct;
  b2c_distinct = vec_remove-Distinct w.b2c id v.b2c_distinct;
  c2b_states = v.c2b_states;
  b2c_states = vec_remove-AllSlots IsB2C w.b2c id v.b2c_states;
}

IsValid-eq : (w : InflightWindows) {w' : InflightWindows} → IsValid w → ok w ≡ ok w' → IsValid w'
IsValid-eq w v h = subst IsValid (cc) v

pubrec_keeps : (e : Slot) → IsB2C e → IsB2C (b2c_pubrec_forwarded, e.1)
pubrec_keeps (c2b_publish_sent, raw) h = absurd h
pubrec_keeps (c2b_pubrel_sent, raw) h = absurd h
pubrec_keeps (b2c_publish_sent, raw) h = h
pubrec_keeps (b2c_pubrec_forwarded, raw) h = h

b2c_transition-IsValid :
    (w : InflightWindows) (id : ℕ) → IsValid w → IsValid (b2c_transition w id b2c_pubrec_forwarded)
unfolding b2c_transition
b2c_transition-IsValid w id v = record {
  c2b_distinct = v.c2b_distinct;
  b2c_distinct = vec_set_state-Distinct w.b2c id b2c_pubrec_forwarded v.b2c_distinct;
  c2b_states = v.c2b_states;
  b2c_states = vec_set_state-AllSlots IsB2C w.b2c id b2c_pubrec_forwarded pubrec_keeps v.b2c_states;
}

module _ {C : Type 0} (lib : CodecLib C) (laws : HasMqttHeaders lib) where
  c2b_insert-IsValid :
      (w : InflightWindows) (qos : QoS) (id : Option ℕ) (p : MqttPacket) {w' : InflightWindows}
      → packet_type p ≡ some 3
      → IsValid w
      → c2b_insert lib w qos id p ≡ ok w'
      → IsValid w'
  unfolding insert_c2b_raw
  c2b_insert-IsValid w qos id p e v h =
      c2b_insert_cases lib IsValid w qos id p (λ _. v)
        (λ i raw _ _ enc.
          insert_c2b_raw-IsValid w i c2b_publish_sent raw
            (encode_raw-HasType lib laws p raw 3 enc e) v)
        h

  b2c_insert-IsValid :
      (w : InflightWindows) (qos : QoS) (id : Option ℕ) (p : MqttPacket) {w' : InflightWindows}
      → packet_type p ≡ some 3
      → IsValid w
      → b2c_insert lib w qos id p ≡ ok w'
      → IsValid w'
  b2c_insert-IsValid w qos id p e v h =
      b2c_insert_cases lib IsValid w qos id p (λ _. v)
        (λ i raw _ _ enc.
          insert_b2c-IsValid w i (b2c_publish_sent, raw) (encode_raw-HasType lib laws p raw 3 enc e)
            v)
        h

  c2b_release-IsValid :
      (w : InflightWindows) (id : ℕ) (p : MqttPacket) {w' : InflightWindows}
      → packet_type p ≡ some 6
      → IsValid w
      → c2b_transition lib w id c2b_pubrel_sent p ≡ ok w'
      → IsValid w'
  unfolding insert_c2b_raw
  c2b_release-IsValid w id p e v h =
      c2b_transition_cases lib IsValid w id c2b_pubrel_sent p (λ _. v)
        (λ raw _ enc.
          insert_c2b_raw-IsValid w id c2b_pubrel_sent raw
            (encode_raw-HasType lib laws p raw 6 enc e) v)
        h

  -- Every client packet that is tracked keeps the windows valid.
  pub track_c2b-IsValid :
      (w : InflightWindows) (p : MqttPacket) {w' : InflightWindows}
      → IsValid w
      → track_c2b lib w p ≡ ok w'
      → IsValid w'
  unfolding track_c2b
  track_c2b-IsValid w (v3 (PacketV3.publish p)) v h =
      c2b_insert-IsValid w p.qos p.packet_id (v3 (PacketV3.publish p)) refl v h
  track_c2b-IsValid w (v3 (PacketV3.publish_release id)) v h =
      c2b_release-IsValid w id (v3 (PacketV3.publish_release id)) refl v h
  track_c2b-IsValid w (v3 (PacketV3.publish_ack id)) v h =
      IsValid-eq (b2c_remove w id) (b2c_remove-IsValid w id v) h
  track_c2b-IsValid w (v3 (PacketV3.publish_received id)) v h =
      IsValid-eq (b2c_transition w id b2c_pubrec_forwarded) (b2c_transition-IsValid w id v) h
  track_c2b-IsValid w (v3 (PacketV3.publish_complete id)) v h =
      IsValid-eq (b2c_remove w id) (b2c_remove-IsValid w id v) h
  track_c2b-IsValid w (v5 (PacketV5.publish p)) v h =
      c2b_insert-IsValid w p.qos p.packet_id (v5 (PacketV5.publish p)) refl v h
  track_c2b-IsValid w (v5 (PacketV5.publish_release a)) v h =
      c2b_release-IsValid w a.packet_id (v5 (PacketV5.publish_release a)) refl v h
  track_c2b-IsValid w (v5 (PacketV5.publish_ack a)) v h =
      IsValid-eq (b2c_remove w a.packet_id) (b2c_remove-IsValid w a.packet_id v) h
  track_c2b-IsValid w (v5 (PacketV5.publish_received a)) v h =
      IsValid-eq (b2c_transition w a.packet_id b2c_pubrec_forwarded)
        (b2c_transition-IsValid w a.packet_id v) h
  track_c2b-IsValid w (v5 (PacketV5.publish_complete a)) v h =
      IsValid-eq (b2c_remove w a.packet_id) (b2c_remove-IsValid w a.packet_id v) h
  track_c2b-IsValid w _ v h = IsValid-eq w v h

  -- Every broker packet that is tracked keeps the windows valid.
  pub track_b2c-IsValid :
      (w : InflightWindows) (p : MqttPacket) {w' : InflightWindows}
      → IsValid w
      → track_b2c lib w p ≡ ok w'
      → IsValid w'
  unfolding track_b2c
  track_b2c-IsValid w (v3 (PacketV3.publish p)) v h =
      b2c_insert-IsValid w p.qos p.packet_id (v3 (PacketV3.publish p)) refl v h
  track_b2c-IsValid w (v3 (PacketV3.publish_ack id)) v h =
      IsValid-eq (c2b_remove w id) (c2b_remove-IsValid w id v) h
  track_b2c-IsValid w (v3 (PacketV3.publish_complete id)) v h =
      IsValid-eq (c2b_remove w id) (c2b_remove-IsValid w id v) h
  track_b2c-IsValid w (v5 (PacketV5.publish p)) v h =
      b2c_insert-IsValid w p.qos p.packet_id (v5 (PacketV5.publish p)) refl v h
  track_b2c-IsValid w (v5 (PacketV5.publish_ack a)) v h =
      IsValid-eq (c2b_remove w a.packet_id) (c2b_remove-IsValid w a.packet_id v) h
  track_b2c-IsValid w (v5 (PacketV5.publish_complete a)) v h =
      IsValid-eq (c2b_remove w a.packet_id) (c2b_remove-IsValid w a.packet_id v) h
  track_b2c-IsValid w _ v h = IsValid-eq w v h
