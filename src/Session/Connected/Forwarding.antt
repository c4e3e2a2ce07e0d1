-- ===== src/Session/Connected/Forwarding.antt =====
-- What the connected phase of src/session/forward.rs forwards, and how it enters an outage.
use traffic_director.Session.Subscriptions.{track}
use traffic_director.Session.Connected.{
  Loop, continues, ends, answer_ping, on_client_next, on_broker_next, forward, on_broker_packet,
  on_disconnect, lose_broker, client_send, is_retryable_disconnect, relay,
}
use traffic_director.Window.{InflightWindows, track_c2b, track_b2c}
use traffic_director.Codec.{PacketV3, Disconnect, PacketV5, MqttPacket, v3, v5, CodecLib}
use traffic_director.Prelude.{
  Bytes, ℕ, ◌<◌, ◌≡◌, refl, true, false, Option, none, some, [], ◌∷◌, Bool,
}
use traffic_director.Result.{ok}
use traffic_director.Session.Outage.Cases.{is_ping}
use traffic_director.Session.Replay.Writes.{send_lem, wrote}
use traffic_director.Session.Conn.{Conn, next_packet, polled}

module _ {C : Type 0} (lib : CodecLib C) where
  -- The session after a client packet `p` that is not a PINGREQ, with the broker connection `b`.
  abbrev pub forwarded :
      ℕ → MqttPacket → C → Bytes → InflightWindows → Option (Conn C) → Loop C → Loop C
  forwarded now p codec buf w b l = record l {
    session = record l.session {
      client = polled l.session.client codec buf;
      windows = w;
      subscriptions = track lib l.session.subscriptions p;
      broker = b;
    };
    last_client_activity = now;
  }

  -- A broker's DISCONNECT whose reason is retryable is not shown to the client.
  pub on_broker_next-retryable :
      (b : Conn C) (d : Disconnect) (codec : C) (buf : Bytes) (l : Loop C)
      → is_retryable_disconnect d.reason_code ≡ true
      → on_broker_next lib b (next_packet (v5 (PacketV5.disconnect d)) codec buf) l ≡ (
        ok continues,
        record l { session = record l.session { broker_leftover = buf; broker = none } },
      )
  unfolding on_broker_next on_broker_packet on_disconnect lose_broker
  on_broker_next-retryable b d codec buf l retryable = rw retryable refl

  -- Any other one is, and the loop ends.
  pub on_broker_next-fault :
      (b : Conn C) (d : Disconnect) (codec : C) (buf : Bytes) (l : Loop C) (raw : Bytes)
      → is_retryable_disconnect d.reason_code ≡ false
      → lib.encode l.session.client.codec (v5 (PacketV5.disconnect d)) ≡ some raw
      → 0 < l.session.client.room
      → on_broker_next lib b (next_packet (v5 (PacketV5.disconnect d)) codec buf) l ≡ (
        ok ends,
        record l { session = record l.session { client = wrote l.session.client (raw ∷ []) } },
      )
  unfolding on_broker_next on_broker_packet on_disconnect client_send
  on_broker_next-fault b d codec buf l raw fault e room =
      rw (fault, send_lem lib l.session.client (v5 (PacketV5.disconnect d)) raw e room) refl

  -- The answer that a PINGREQ gets.
  abbrev pub pong : MqttPacket → MqttPacket
  pong (v3 p) = v3 PacketV3.ping_response
  pong _ = v5 PacketV5.ping_response

  -- A PINGREQ, v3 or v5, is answered and forwarded: if both connections accept the write, the
  -- client is sent exactly the PINGRESP of its version and the broker exactly the PINGREQ, the
  -- keepalive timer restarts, and windows and table are as they were.
  pub on_client_next-pong :
      (now : ℕ) (b : Conn C) (p : MqttPacket) (codec : C) (buf : Bytes) (l : Loop C)
      (out raw : Bytes)
      → is_ping p ≡ true
      → lib.encode codec (pong p) ≡ some out
      → lib.encode b.codec p ≡ some raw
      → 0 < l.session.client.room
      → 0 < b.room
      → on_client_next lib now b (next_packet p codec buf) l ≡ (
        ok continues,
        record l {
          session = record l.session {
            client = wrote (polled l.session.client codec buf) (out ∷ []);
            broker = some (wrote b (raw ∷ []));
          };
          last_client_activity = now;
        },
      )
  unfolding on_client_next answer_ping client_send forward track_c2b track
  on_client_next-pong now b (v3 PacketV3.ping_request) codec buf l out raw h eo er ro rr = rw (
    send_lem lib (polled l.session.client codec buf) (v3 PacketV3.ping_response) out eo ro,
    send_lem lib b (v3 PacketV3.ping_request) raw er rr,
  )
  on_client_next-pong now b (v5 PacketV5.ping_request) codec buf l out raw h eo er ro rr = rw (
    send_lem lib (polled l.session.client codec buf) (v5 PacketV5.ping_response) out eo ro,
    send_lem lib b (v5 PacketV5.ping_request) raw er rr,
  )
  on_client_next-pong now b _ codec buf l out raw h eo er ro rr = cc

  abbrev pub is_relayed : MqttPacket → Bool
  is_relayed (v3 PacketV3.ping_response) = false
  is_relayed (v5 PacketV5.ping_response) = false
  is_relayed (v5 (PacketV5.disconnect d)) = false
  is_relayed _ = true

  -- A broker packet that is neither a PINGRESP nor a v5 DISCONNECT, if it is tracked and the
  -- client's connection accepts it, is the only thing that the client is sent; the windows have
  -- tracked it, and the broker connection stays.
  pub on_broker_next-relays :
      (b : Conn C) (p : MqttPacket) (codec : C) (buf : Bytes) (l : Loop C) (raw : Bytes)
      {w : InflightWindows}
      → is_relayed p ≡ true
      → track_b2c lib l.session.windows p ≡ ok w
      → lib.encode l.session.client.codec p ≡ some raw
      → 0 < l.session.client.room
      → on_broker_next lib b (next_packet p codec buf) l ≡ (
        ok continues,
        record l {
          session = record l.session {
            client = wrote l.session.client (raw ∷ []);
            broker = some (polled b codec buf);
            windows = w;
          };
        },
      )
  unfolding on_broker_next on_broker_packet relay client_send
  on_broker_next-relays b (v3 PacketV3.ping_response) codec buf l raw h t e room = cc
  on_broker_next-relays b (v5 PacketV5.ping_response) codec buf l raw h t e room = cc
  on_broker_next-relays b (v5 (PacketV5.disconnect d)) codec buf l raw h t e room = cc
  on_broker_next-relays b p codec buf l raw h t e room =
      rw (t, send_lem lib l.session.client p raw e room)
