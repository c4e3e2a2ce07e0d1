-- ===== src/Window/Phases.antt =====
-- The windows of src/window.rs follow the automaton of Window/Signals.antt.
use traffic_director.Window.Signals.{
  Phase, PacketSignal, acknowledges, broker_b2c, broker_c2b, client_b2c, client_c2b, completes,
  if_tracked, moved, phase, publishes, receives, releases, signal, started, unrelated,
}
use mathlib.Core.Path.{subst}
use traffic_director.Window.Cases.{c2b_insert_cases, b2c_insert_cases, c2b_transition_cases}
use traffic_director.Result.{ok}
use traffic_director.Window.{
  InflightWindows, track_c2b, track_b2c, is_at_most_once, c2b_insert, b2c_insert, c2b_transition,
  b2c_remove, c2b_remove, b2c_transition,
}
use traffic_director.Window.Vec.{
  Slots, WindowState, c2b_publish_sent, b2c_publish_sent, Slot, vec_remove, vec_set_state,
  vec_contains, c2b_pubrel_sent, b2c_pubrec_forwarded, vec_insert,
}
use traffic_director.Prelude.{Option, ℕ, some, none, ◌≡◌, refl, ◌∙◌, true, false, arith}
use traffic_director.Codec.{QoS, MqttPacket, CodecLib, PacketV3, v3, PacketV5, v5, at_most_once}
use traffic_director.Window.Vec.Lookup.{
  vec_get-vec_insert, vec_get-vec_remove, vec_get-vec_set_state, vec_contains-vec_get,
}

abbrev ClientMoves : InflightWindows → PacketSignal → InflightWindows → Type 0
ClientMoves w s w' =
    (j : ℕ)
    → (phase w'.c2b j ≡ client_c2b s j (phase w.c2b j))
      × (phase w'.b2c j ≡ client_b2c s j (phase w.b2c j))

abbrev BrokerMoves : InflightWindows → PacketSignal → InflightWindows → Type 0
BrokerMoves w s w' =
    (j : ℕ)
    → (phase w'.c2b j ≡ broker_c2b s j (phase w.c2b j))
      × (phase w'.b2c j ≡ broker_b2c s j (phase w.b2c j))

pub phase-vec_insert :
    (v : Slots) (i j : ℕ) (e : Slot) → phase (vec_insert v i e) j ≡ moved i j (some e.0) (phase v j)
phase-vec_insert v i j e = ground (arith, vec_get-vec_insert v i j e)

phase-vec_remove : (v : Slots) (i j : ℕ) → phase (vec_remove v i) j ≡ moved i j none (phase v j)
phase-vec_remove v i j = ground (arith, vec_get-vec_remove v i j)

phase-vec_set_state :
    (v : Slots) (i j : ℕ) (to : WindowState)
    → phase (vec_set_state v i to) j ≡ moved i j (if_tracked to (phase v j)) (phase v j)
phase-vec_set_state v i j to = ground (arith, vec_get-vec_set_state v i j to)

-- Where `id` is not in flight, moving it if it is changes nothing.
untracked :
    (v : Slots) (i j : ℕ) (to : WindowState)
    → vec_contains v i ≡ false
    → phase v j ≡ moved i j (if_tracked to (phase v j)) (phase v j)
untracked v i j to h = ground (arith, vec_contains-vec_get v i, vec_contains-vec_get v j)

tracked :
    (v : Slots) (i j : ℕ) (to : WindowState)
    → vec_contains v i ≡ true
    → moved i j (some to) (phase v j) ≡ moved i j (if_tracked to (phase v j)) (phase v j)
tracked v i j to h = ground (arith, vec_contains-vec_get v i, vec_contains-vec_get v j)

started_none :
    (to : WindowState) (qos : QoS) (id : Option ℕ) (j : ℕ) (s : Phase)
    → is_at_most_once qos ≡ true
    → s ≡ started to qos id j s
started_none to at_most_once id j s h = refl
started_none to _ id j s h = cc

started-some :
    (to : WindowState) (qos : QoS) (id : Option ℕ) (i j : ℕ) (s : Phase)
    → is_at_most_once qos ≡ false
    → id ≡ some i
    → moved i j (some to) s ≡ started to qos id j s
started-some to at_most_once id i j s h e = cc
started-some to _ id i j s h e = rw e

module _ {C : Type 0} (lib : CodecLib C) (w : InflightWindows) where
  c2b_insert-Moves :
      (qos : QoS) (id : Option ℕ) (p : MqttPacket) {w' : InflightWindows}
      → c2b_insert lib w qos id p ≡ ok w'
      → ClientMoves w (publishes qos id) w'
  c2b_insert-Moves qos id p h =
      c2b_insert_cases lib (ClientMoves w (publishes qos id)) w qos id p
        (λ zero_qos j. (started_none _ qos id j _ zero_qos, refl))
        (λ i raw q e enc j. (
          phase-vec_insert w.c2b i j (c2b_publish_sent, raw) ∙ started-some _ qos id i j _ q e,
          refl,
        ))
        h

  b2c_insert-Moves :
      (qos : QoS) (id : Option ℕ) (p : MqttPacket) {w' : InflightWindows}
      → b2c_insert lib w qos id p ≡ ok w'
      → BrokerMoves w (publishes qos id) w'
  b2c_insert-Moves qos id p h =
      b2c_insert_cases lib (BrokerMoves w (publishes qos id)) w qos id p
        (λ zero_qos j. (refl, started_none _ qos id j _ zero_qos))
        (λ i raw q e enc j. (
          refl,
          phase-vec_insert w.b2c i j (b2c_publish_sent, raw) ∙ started-some _ qos id i j _ q e,
        ))
        h

  c2b_transition-Moves :
      (id : ℕ) (p : MqttPacket) {w' : InflightWindows}
      → c2b_transition lib w id c2b_pubrel_sent p ≡ ok w'
      → ClientMoves w (releases id) w'
  c2b_transition-Moves id p h =
      c2b_transition_cases lib (ClientMoves w (releases id)) w id c2b_pubrel_sent p
        (λ out j. (untracked w.c2b id j c2b_pubrel_sent out, refl))
        (λ raw known enc j. (
          phase-vec_insert w.c2b id j (c2b_pubrel_sent, raw)
              ∙ tracked w.c2b id j c2b_pubrel_sent known,
          refl,
        ))
        h

ClientMoves-eq :
    (w u : InflightWindows) (s : PacketSignal) {w' : InflightWindows}
    → ClientMoves w s u
    → ok u ≡ ok w'
    → ClientMoves w s w'
ClientMoves-eq w u s m h = subst (ClientMoves w s) (cc) m

BrokerMoves-eq :
    (w u : InflightWindows) (s : PacketSignal) {w' : InflightWindows}
    → BrokerMoves w s u
    → ok u ≡ ok w'
    → BrokerMoves w s w'
BrokerMoves-eq w u s m h = subst (BrokerMoves w s) (cc) m

b2c_remove-Moves :
    (w : InflightWindows) (id j : ℕ)
    → (phase (b2c_remove w id).c2b j ≡ phase w.c2b j)
      × (phase (b2c_remove w id).b2c j ≡ moved id j none (phase w.b2c j))
unfolding b2c_remove
b2c_remove-Moves w id j = (refl, phase-vec_remove w.b2c id j)

c2b_remove-Moves :
    (w : InflightWindows) (id j : ℕ)
    → (phase (c2b_remove w id).c2b j ≡ moved id j none (phase w.c2b j))
      × (phase (c2b_remove w id).b2c j ≡ phase w.b2c j)
unfolding c2b_remove
c2b_remove-Moves w id j = (phase-vec_remove w.c2b id j, refl)

pubrec-Moves :
    (w : InflightWindows) (id : ℕ)
    → ClientMoves w (receives id) (b2c_transition w id b2c_pubrec_forwarded)
unfolding b2c_transition
pubrec-Moves w id j = (refl, phase-vec_set_state w.b2c id j b2c_pubrec_forwarded)

-- Where `track_c2b` returns, each identifier has moved in both directions as the signal of the
-- client's packet says, and as the automaton has it.
pub track_c2b-Phases :
    {C : Type 0} (lib : CodecLib C) (w : InflightWindows) (p : MqttPacket) {w' : InflightWindows}
    → track_c2b lib w p ≡ ok w'
    → (j : ℕ)
    → (phase w'.c2b j ≡ client_c2b (signal p) j (phase w.c2b j))
      × (phase w'.b2c j ≡ client_b2c (signal p) j (phase w.b2c j))
unfolding track_c2b
track_c2b-Phases lib w (v3 (PacketV3.publish p)) h =
    c2b_insert-Moves lib w p.qos p.packet_id (v3 (PacketV3.publish p)) h
track_c2b-Phases lib w (v3 (PacketV3.publish_release id)) h =
    c2b_transition-Moves lib w id (v3 (PacketV3.publish_release id)) h
track_c2b-Phases lib w (v3 (PacketV3.publish_ack id)) h =
    ClientMoves-eq w (b2c_remove w id) (acknowledges id) (b2c_remove-Moves w id) h
track_c2b-Phases lib w (v3 (PacketV3.publish_received id)) h =
    ClientMoves-eq w _ (receives id) (pubrec-Moves w id) h
track_c2b-Phases lib w (v3 (PacketV3.publish_complete id)) h =
    ClientMoves-eq w (b2c_remove w id) (completes id) (b2c_remove-Moves w id) h
track_c2b-Phases lib w (v5 (PacketV5.publish p)) h =
    c2b_insert-Moves lib w p.qos p.packet_id (v5 (PacketV5.publish p)) h
track_c2b-Phases lib w (v5 (PacketV5.publish_release a)) h =
    c2b_transition-Moves lib w a.packet_id (v5 (PacketV5.publish_release a)) h
track_c2b-Phases lib w (v5 (PacketV5.publish_ack a)) h =
    ClientMoves-eq w (b2c_remove w a.packet_id) (acknowledges a.packet_id)
      (b2c_remove-Moves w a.packet_id) h
track_c2b-Phases lib w (v5 (PacketV5.publish_received a)) h =
    ClientMoves-eq w _ (receives a.packet_id) (pubrec-Moves w a.packet_id) h
track_c2b-Phases lib w (v5 (PacketV5.publish_complete a)) h =
    ClientMoves-eq w (b2c_remove w a.packet_id) (completes a.packet_id)
      (b2c_remove-Moves w a.packet_id) h
track_c2b-Phases lib w _ h = ClientMoves-eq w w unrelated (λ j. (refl, refl)) h

-- Where `track_b2c` returns, each identifier has moved in both directions as the signal of the
-- broker's packet says, and as the automaton has it.
pub track_b2c-Phases :
    {C : Type 0} (lib : CodecLib C) (w : InflightWindows) (p : MqttPacket) {w' : InflightWindows}
    → track_b2c lib w p ≡ ok w'
    → (j : ℕ)
    → (phase w'.c2b j ≡ broker_c2b (signal p) j (phase w.c2b j))
      × (phase w'.b2c j ≡ broker_b2c (signal p) j (phase w.b2c j))
unfolding track_b2c
track_b2c-Phases lib w (v3 (PacketV3.publish p)) h =
    b2c_insert-Moves lib w p.qos p.packet_id (v3 (PacketV3.publish p)) h
track_b2c-Phases lib w (v3 (PacketV3.publish_ack id)) h =
    BrokerMoves-eq w (c2b_remove w id) (acknowledges id) (c2b_remove-Moves w id) h
track_b2c-Phases lib w (v3 (PacketV3.publish_complete id)) h =
    BrokerMoves-eq w (c2b_remove w id) (completes id) (c2b_remove-Moves w id) h
track_b2c-Phases lib w (v3 (PacketV3.publish_received id)) h =
    BrokerMoves-eq w w (receives id) (λ j. (refl, refl)) h
track_b2c-Phases lib w (v3 (PacketV3.publish_release id)) h =
    BrokerMoves-eq w w (releases id) (λ j. (refl, refl)) h
track_b2c-Phases lib w (v5 (PacketV5.publish p)) h =
    b2c_insert-Moves lib w p.qos p.packet_id (v5 (PacketV5.publish p)) h
track_b2c-Phases lib w (v5 (PacketV5.publish_ack a)) h =
    BrokerMoves-eq w (c2b_remove w a.packet_id) (acknowledges a.packet_id)
      (c2b_remove-Moves w a.packet_id) h
track_b2c-Phases lib w (v5 (PacketV5.publish_complete a)) h =
    BrokerMoves-eq w (c2b_remove w a.packet_id) (completes a.packet_id)
      (c2b_remove-Moves w a.packet_id) h
track_b2c-Phases lib w (v5 (PacketV5.publish_received a)) h =
    BrokerMoves-eq w w (receives a.packet_id) (λ j. (refl, refl)) h
track_b2c-Phases lib w (v5 (PacketV5.publish_release a)) h =
    BrokerMoves-eq w w (releases a.packet_id) (λ j. (refl, refl)) h
track_b2c-Phases lib w _ h = BrokerMoves-eq w w unrelated (λ j. (refl, refl)) h
