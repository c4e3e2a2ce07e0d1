-- ===== src/Session/Connected/Keeps.antt =====
-- The connected phase of src/session/forward.rs and a property of the session.
use traffic_director.Session.Subscriptions.{Subscriptions, track}
use traffic_director.Session.Outage.{OutageBuffer}
use traffic_director.Session.Kept.{Property, NextFrom, Has, HasAfter, Kept}
use traffic_director.Exec.{settle, map_err}
use mathlib.Core.Path.{subst}
use traffic_director.Exec.Post.{Post, Post-last, Post-bind, Post-settle}
use traffic_director.Session.Connected.{
  Loop, answer_ping, on_client_next, forward, relay, on_disconnect, on_broker_packet,
  on_broker_next, lose_broker, is_retryable_disconnect, client_send,
}
use traffic_director.Session.Conn.{Conn, Next, next_packet, next_error, next_none, polled, send}
use traffic_director.Window.{InflightWindows, track_c2b, track_b2c}
use traffic_director.Codec.{PacketV3, PacketV5, MqttPacket, v3, v5, CodecLib, ProtocolVersion}
use traffic_director.Prelude.{ℕ, ◌≡◌, Bytes, Bool, true, false, some}
use traffic_director.Result.{◌>>=◌ as bind, invalid_data, Result, ok, bind-ok}

module _ {C : Type 0} (lib : CodecLib C) where
  abbrev tracked : MqttPacket → Loop C → Result (Loop C)
  tracked p l =
      bind (track_c2b lib l.session.windows p)
        (λ w. ok (record l { session = record l.session { windows = w } }))

  abbrev relayed : MqttPacket → Loop C → Result (Loop C)
  relayed p l =
      bind (track_b2c lib l.session.windows p)
        (λ w. ok (record l { session = record l.session { windows = w } }))

module _ {C : Type 0} (lib : CodecLib C) (P : Property) where
  pub client_send-Has :
      (p : MqttPacket) (l : Loop C) → Has P l → Post (HasAfter P) (client_send lib p l)
  unfolding client_send
  client_send-Has p l v =
      Post-last (HasAfter P) (map_err (send lib l.session.client p).0 invalid_data) _ (λ u. v)

  answer_ping-Has :
      (p : MqttPacket) (l : Loop C) → Has P l → Post (HasAfter P) (answer_ping lib p l)
  unfolding answer_ping
  answer_ping-Has (v3 PacketV3.ping_request) l v = client_send-Has (v3 PacketV3.ping_response) l v
  answer_ping-Has (v5 PacketV5.ping_request) l v = client_send-Has (v5 PacketV5.ping_response) l v
  answer_ping-Has _ l v = v

  with_windows-Has :
      (l : Loop C) (w : InflightWindows) {l' : Loop C}
      → P l.session.hs.version w l.session.buffer l.session.subscriptions
      → ok (record l { session = record l.session { windows = w } }) ≡ ok l'
      → Has P l'
  with_windows-Has l w {l'} v e =
      let same : record l { session = record l.session { windows = w } } ≡ l' = cc in
      subst (Has P) same v

-- A property before the windows track a client's packet, one after it, and one after the table has
-- tracked it too.
module _ {C : Type 0} (lib : CodecLib C) (P Q R : Property) (p : MqttPacket) where
  abbrev pub TracksWindows : Type 0
  TracksWindows =
      (ver : ProtocolVersion) (w w' : InflightWindows) (b : OutageBuffer) (t : Subscriptions)
      → track_c2b lib w p ≡ ok w'
      → P ver w b t
      → Q ver w' b t

  abbrev pub TracksTable : Type 0
  TracksTable =
      (ver : ProtocolVersion) (w : InflightWindows) (b : OutageBuffer) (t : Subscriptions)
      → Q ver w b t
      → R ver w b (track lib t p)

  tracked-turns :
      (l : Loop C) {l' : Loop C} → TracksWindows → Has P l → tracked lib p l ≡ ok l' → Has Q l'
  tracked-turns l k v e =
      let (w, h, t) = bind-ok (track_c2b lib l.session.windows p) e in
      with_windows-Has lib Q l w
        (k l.session.hs.version l.session.windows w l.session.buffer l.session.subscriptions t v) h

  pub on_client_next-turns :
      (now : ℕ) (b : Conn C) (codec : C) (buf : Bytes) (l : Loop C)
      → TracksWindows
      → TracksTable
      → Has P l
      → Post (HasAfter R) (on_client_next lib now b (next_packet p codec buf) l)
  unfolding on_client_next forward
  on_client_next-turns now b codec buf l windows table v =
      let l₁ : Loop C = record l {
        session = record l.session { client = polled l.session.client codec buf };
        last_client_activity = now;
      } in
      Post-bind (HasAfter P) (HasAfter R) (answer_ping lib p l₁) _ (answer_ping-Has lib P p l₁ v)
        (λ u l₂ v₂.
          Post-bind (HasAfter Q) (HasAfter R) (settle l₂ (tracked lib p l₂)) _
            (Post-settle (HasAfter Q) l₂ (tracked lib p l₂) (λ l₃ e. tracked-turns l₂ windows v₂ e))
            (λ u l₃ v₃.
              table l₃.session.hs.version l₃.session.windows l₃.session.buffer
                l₃.session.subscriptions v₃))

module _ {C : Type 0} (lib : CodecLib C) (P : Property)
    {FromClient FromBroker : MqttPacket → Type 0} (k : Kept lib P FromClient FromBroker) where
  pub on_client_next-Has :
      (now : ℕ) (b : Conn C) (next : Next C) (l : Loop C)
      → NextFrom FromClient next
      → Has P l
      → Post (HasAfter P) (on_client_next lib now b next l)
  unfolding on_client_next
  on_client_next-Has now b (next_packet p codec buf) l o v =
      on_client_next-turns lib P P P p now b codec buf l
        (λ ver w w' b t e h. k.client_tracked ver w w' b t p o e h)
        (λ ver w b t h. k.table_tracked ver w b t p o h) v
  on_client_next-Has now b (next_error codec buf) l o v = tt
  on_client_next-Has now b (next_none codec buf) l o v = v

  relayed-Has :
      (p : MqttPacket) (l : Loop C) {l' : Loop C}
      → FromBroker p
      → Has P l
      → relayed lib p l ≡ ok l'
      → Has P l'
  relayed-Has p l o v e =
      let (w, h, t) = bind-ok (track_b2c lib l.session.windows p) e in
      with_windows-Has lib P l w
        (k.broker_tracked l.session.hs.version l.session.windows w l.session.buffer
          l.session.subscriptions p o t v)
        h

  relay-Has :
      (p : MqttPacket) (l : Loop C) → FromBroker p → Has P l → Post (HasAfter P) (relay lib p l)
  unfolding relay
  relay-Has (v3 PacketV3.ping_response) l o v = v
  relay-Has (v5 PacketV5.ping_response) l o v = v
  relay-Has p l o v =
      Post-bind (HasAfter P) (HasAfter P) (settle l (relayed lib p l)) _
        (Post-settle (HasAfter P) l (relayed lib p l) (λ l₁ e. relayed-Has p l o v e))
        (λ u l₁ v₁.
          Post-bind (HasAfter P) (HasAfter P) (client_send lib p l₁) _
            (client_send-Has lib P p l₁ v₁) (λ u l₂ v₂. v₂))

  on_disconnect-Has :
      (retryable : Bool) (buf : Bytes) (p : MqttPacket) (l : Loop C)
      → Has P l
      → Post (HasAfter P) (on_disconnect lib retryable buf p l)
  unfolding on_disconnect lose_broker
  on_disconnect-Has true buf p l v = v
  on_disconnect-Has false buf p l v =
      Post-bind (HasAfter P) (HasAfter P) (client_send lib p l) _ (client_send-Has lib P p l v)
        (λ u l₁ v₁. v₁)

  on_broker_packet-Has :
      (b : Conn C) (buf : Bytes) (p : MqttPacket) (l : Loop C)
      → FromBroker p
      → Has P l
      → Post (HasAfter P) (on_broker_packet lib b buf p l)
  unfolding on_broker_packet
  on_broker_packet-Has b buf (v5 (PacketV5.disconnect d)) l o v =
      on_disconnect-Has (is_retryable_disconnect d.reason_code) buf (v5 (PacketV5.disconnect d)) l v
  on_broker_packet-Has b buf p l o v =
      relay-Has p (record l { session = record l.session { broker = some b } }) o v

  pub on_broker_next-Has :
      (b : Conn C) (next : Next C) (l : Loop C)
      → NextFrom FromBroker next
      → Has P l
      → Post (HasAfter P) (on_broker_next lib b next l)
  unfolding on_broker_next lose_broker
  on_broker_next-Has b (next_packet p codec buf) l o v =
      on_broker_packet-Has (polled b codec buf) buf p l o v
  on_broker_next-Has b (next_error codec buf) l o v = v
  on_broker_next-Has b (next_none codec buf) l o v = v
