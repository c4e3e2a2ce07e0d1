-- ===== src/Session/Start.antt =====
-- `run_session` of src/session/forward.rs up to the registration of the session.
use traffic_director.Session.Outage.{empty_buffer}
use traffic_director.Window.{new}
use traffic_director.Exec.{map_err}
use traffic_director.Session.{codec_for}
use traffic_director.Session.Handshake.{handshake}
use traffic_director.Session.Subscriptions.{or_default}
use traffic_director.Session.Freeze.{Session}
use traffic_director.Session.Conn.{
  Conn, Next, next_packet, next_error, next_none, write_all, send, after_next,
}
use traffic_director.Codec.{PacketV5, MqttPacket, v5, CodecLib}
use traffic_director.Prelude.{ℕ, some, []}
use traffic_director.Result.{◌>>=◌, invalid_data, connection_aborted, Result, ok, err}

module _ {C : Type 0} (lib : CodecLib C) where
  -- A Server Keep Alive in the CONNACK replaces the client's keepalive.
  abbrev pub broker_keep_alive : MqttPacket → ℕ → ℕ
  broker_keep_alive (v5 (PacketV5.connect_ack a)) keep_alive =
      or_default a.server_keepalive_sec keep_alive
  broker_keep_alive _ keep_alive = keep_alive

  unfoldable pub acknowledged : Next C → Result MqttPacket
  acknowledged (next_packet p codec buf) = ok p
  acknowledged (next_error codec buf) = err invalid_data
  acknowledged (next_none codec buf) = err connection_aborted

  -- `stream` is the result of the connect to the broker, and `first`, `second` and `ack` are what
  -- the three calls of `next()` yield.
  unfoldable pub run_session :
      Conn C → Next C → Next C → Result (Conn C) → Next C → Result (Session C)
  unfolding acknowledged
  run_session client first second stream ack = do
    (client', hs) ← handshake lib client first second
    s ← stream
    let fresh = record s { codec = codec_for lib hs.version; read_buf = [] }
    let asked = write_all fresh hs.connect_raw
    written ← asked.0
    p ← acknowledged ack
    let answered = send lib client' p
    sent ← map_err answered.0 invalid_data
    ok (record {
      client = answered.1;
      broker = some (after_next asked.1 ack);
      hs = record hs { keep_alive = broker_keep_alive p hs.keep_alive };
      windows = new;
      subscriptions = [];
      buffer = empty_buffer;
      broker_leftover = [];
    })
