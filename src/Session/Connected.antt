-- ===== src/Session/Connected.antt =====
-- The connected phase of `forward_loop` in src/session/forward.rs: a client packet and a broker
-- packet. The broker connection `b` has been taken out of the session.
pub mod Forwarding
pub mod Keeps
pub mod Tracks
use traffic_director.Session.Subscriptions.{track}
use traffic_director.Window.{track_c2b, track_b2c}
use traffic_director.Session.Freeze.{OutageStep, Session}
use traffic_director.Session.Conn.{Conn, Next, next_packet, next_error, next_none, send, polled}
use traffic_director.Exec.{◌>>◌, Exec, pure, map_err, modify, update, raise}
use traffic_director.Codec.{
  PacketV3, DisconnectReasonCode, normal_disconnection, server_shutting_down, server_busy,
  use_another_server, server_moved, PacketV5, MqttPacket, v3, v5, CodecLib,
}
use traffic_director.Prelude.{Bytes, ℕ, Bool, true, false, Option, none, some}
use traffic_director.Result.{◌>>=◌ as bind, invalid_data, Result, ok}

-- The variables of the loop; times are nanoseconds.
pub record Loop (C : Type 0) : Type 0 where
  pub session : Session C
  pub delay : ℕ
  pub step : OutageStep
  pub last_client_activity : ℕ

-- The next turn of the loop, or a return of `Ok`.
pub data Flow : Type 0 where
  continues ends : Flow

unfoldable pub is_retryable_disconnect : DisconnectReasonCode → Bool
is_retryable_disconnect normal_disconnection = true
is_retryable_disconnect server_shutting_down = true
is_retryable_disconnect server_busy = true
is_retryable_disconnect use_another_server = true
is_retryable_disconnect server_moved = true
is_retryable_disconnect _ = false

module _ {C : Type 0} (lib : CodecLib C) where
  -- `client.send(p).await.map_err(invalid_data)?`
  pub client_send : MqttPacket → Exec (Loop C) (Unit {0})
  client_send p l =
      let (r, client) = send lib l.session.client p in
      (map_err r invalid_data, record l { session = record l.session { client = client } })

  pub answer_ping : MqttPacket → Exec (Loop C) (Unit {0})
  unfolding client_send
  answer_ping (v3 PacketV3.ping_request) = client_send (v3 PacketV3.ping_response)
  answer_ping (v5 PacketV5.ping_request) = client_send (v5 PacketV5.ping_response)
  answer_ping _ = pure tt

  -- The broker connection after `b.send(p)`, dropped if the send fails.
  abbrev pub kept : Result (Unit {0}) × Conn C → Option (Conn C)
  kept (ok done, b) = some b
  kept (_, b) = none

  pub forward : Conn C → MqttPacket → Exec (Loop C) (Unit {0})
  unfolding send
  forward b p =
      modify (λ l. record l { session = record l.session { broker = kept (send lib b p) } })

  -- The arm of `client.next()` at the time `now`.
  unfoldable pub on_client_next : ℕ → Conn C → Next C → Exec (Loop C) Flow
  unfolding answer_ping forward
  on_client_next now b (next_packet p codec buf) = do
    modify (λ l. record l {
      session = record l.session { client = polled l.session.client codec buf };
      last_client_activity = now;
    })
    answer_ping p
    update (λ l.
        bind (track_c2b lib l.session.windows p)
          (λ w. ok (record l { session = record l.session { windows = w } })))
    modify (λ l. record l {
      session = record l.session { subscriptions = track lib l.session.subscriptions p };
    })
    forward b p
    pure continues
  on_client_next now b (next_error codec buf) = raise invalid_data
  on_client_next now b (next_none codec buf) = pure ends

  -- The broker is gone: what it had sent and was not decoded is kept.
  lose_broker : Bytes → Exec (Loop C) Flow
  lose_broker buf = do
    modify (λ l. record l { session = record l.session { broker_leftover = buf; broker = none } })
    pure continues

  on_disconnect : Bool → Bytes → MqttPacket → Exec (Loop C) Flow
  unfolding lose_broker client_send
  on_disconnect true buf p = lose_broker buf
  on_disconnect false buf p = do client_send p; pure ends

  -- A PINGRESP is swallowed, any other packet is tracked and sent to the client.
  relay : MqttPacket → Exec (Loop C) Flow
  unfolding client_send
  relay (v3 PacketV3.ping_response) = pure continues
  relay (v5 PacketV5.ping_response) = pure continues
  relay p = do
    update (λ l.
        bind (track_b2c lib l.session.windows p)
          (λ w. ok (record l { session = record l.session { windows = w } })))
    client_send p
    pure continues

  on_broker_packet : Conn C → Bytes → MqttPacket → Exec (Loop C) Flow
  unfolding on_disconnect relay
  on_broker_packet b buf (v5 (PacketV5.disconnect d)) =
      on_disconnect (is_retryable_disconnect d.reason_code) buf (v5 (PacketV5.disconnect d))
  on_broker_packet b buf p = do
    modify (λ l. record l { session = record l.session { broker = some b } })
    relay p

  -- The arm of `b.next()`.
  unfoldable pub on_broker_next : Conn C → Next C → Exec (Loop C) Flow
  unfolding on_broker_packet lose_broker
  on_broker_next b (next_packet p codec buf) = on_broker_packet (polled b codec buf) buf p
  on_broker_next b (next_error codec buf) = lose_broker buf
  on_broker_next b (next_none codec buf) = lose_broker buf
