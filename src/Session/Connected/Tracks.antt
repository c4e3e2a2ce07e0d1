-- ===== src/Session/Connected/Tracks.antt =====
-- What the windows are after the connected phase of src/session/forward.rs has passed a packet on:
-- those that tracking the packet returned.
use mathlib.Core.Path.{subst}
use traffic_director.Exec.{settle}
use traffic_director.Exec.Post.{Post, Post-bind, Post-settle}
use traffic_director.Session.Connected.{
  Loop, on_client_next, relay, on_broker_packet, on_broker_next, client_send,
}
use traffic_director.Session.Conn.{Conn, next_packet, polled}
use traffic_director.Window.Signals.{unrelated, signal}
use traffic_director.Window.{InflightWindows, track_c2b, track_b2c}
use traffic_director.Codec.{PacketV3, PacketV5, MqttPacket, v3, v5, CodecLib}
use traffic_director.Prelude.{Bytes, ℕ, ◌≡◌, refl, ◌≢◌, some}
use traffic_director.Result.{◌>>=◌ as bind, Result, ok, bind-ok}
use traffic_director.Session.Connected.Keeps.{on_client_next-turns, client_send-Has}

abbrev OfWindows : {C : Type 0} → (InflightWindows → Type 0) → {A : Type 0} → A → Loop C → Type 0
OfWindows Q a l = Q l.session.windows

module _ {C : Type 0} (lib : CodecLib C) (Q : InflightWindows → Type 0) (p : MqttPacket) where
  windows_of :
      (l : Loop C) (r : Result InflightWindows) {l' : Loop C}
      → ((w : InflightWindows) → r ≡ ok w → Q w)
      → bind r (λ w. ok (record l { session = record l.session { windows = w } })) ≡ ok l'
      → Q l'.session.windows
  windows_of l r {l'} q e =
      let (w, h, t) = bind-ok r e in let same : w ≡ l'.session.windows = cc in subst Q same (q w t)

  pub on_client_next-tracks :
      (now : ℕ) (b : Conn C) (codec : C) (buf : Bytes) (l : Loop C)
      → ((w w' : InflightWindows) → track_c2b lib w p ≡ ok w' → Q w')
      → Post (OfWindows Q) (on_client_next lib now b (next_packet p codec buf) l)
  on_client_next-tracks now b codec buf l q =
      on_client_next-turns lib (λ ver w b t. Unit) (λ ver w b t. Q w) (λ ver w b t. Q w) p now b
        codec buf l (λ ver w w' b t e h. q w w' e) (λ ver w b t h. h) tt

module _ {C : Type 0} (lib : CodecLib C) (Q : InflightWindows → Type 0) where
  relay-tracks :
      (p : MqttPacket) (l : Loop C)
      → signal p ≢ unrelated
      → ((w w' : InflightWindows) → track_b2c lib w p ≡ ok w' → Q w')
      → Post (OfWindows Q) (relay lib p l)
  unfolding relay
  relay-tracks (v3 PacketV3.ping_response) l h q = absurd (h refl)
  relay-tracks (v5 PacketV5.ping_response) l h q = absurd (h refl)
  relay-tracks p l h q =
      Post-bind (OfWindows Q) (OfWindows Q)
        (settle l (
          bind (track_b2c lib l.session.windows p)
            (λ w. ok (record l { session = record l.session { windows = w } }))))
        _
        (Post-settle (OfWindows Q) l _ (λ l₁ e.
          windows_of lib Q p l (track_b2c lib l.session.windows p) (q l.session.windows) e))
        (λ u l₁ v₁.
          Post-bind (OfWindows Q) (OfWindows Q) (client_send lib p l₁) _
            (client_send-Has lib (λ v w b t. Q w) p l₁ v₁) (λ u l₂ v₂. v₂))

  on_broker_packet-tracks :
      (b : Conn C) (buf : Bytes) (p : MqttPacket) (l : Loop C)
      → signal p ≢ unrelated
      → ((w w' : InflightWindows) → track_b2c lib w p ≡ ok w' → Q w')
      → Post (OfWindows Q) (on_broker_packet lib b buf p l)
  unfolding on_broker_packet
  on_broker_packet-tracks b buf (v5 (PacketV5.disconnect d)) l h q = absurd (h refl)
  on_broker_packet-tracks b buf p l h q =
      relay-tracks p (record l { session = record l.session { broker = some b } }) h q

  pub on_broker_next-tracks :
      (p : MqttPacket) (b : Conn C) (codec : C) (buf : Bytes) (l : Loop C)
      → signal p ≢ unrelated
      → ((w w' : InflightWindows) → track_b2c lib w p ≡ ok w' → Q w')
      → Post (OfWindows Q) (on_broker_next lib b (next_packet p codec buf) l)
  unfolding on_broker_next
  on_broker_next-tracks p b codec buf l = on_broker_packet-tracks (polled b codec buf) buf p l
