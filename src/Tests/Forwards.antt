-- ===== src/Tests/Forwards.antt =====
-- Tests of the connected phase of src/session/forward.rs: a PUBLISH and a broker's DISCONNECT.
use traffic_director.Tests.Toy.{toy}
use traffic_director.Session.Outage.{empty_buffer, broker_retry_initial}
use traffic_director.Session.Connected.{Loop}
use traffic_director.Session.Freeze.{connect_step}
use traffic_director.Session.Conn.{Conn}
use traffic_director.Window.Vec.{c2b_publish_sent, vec_insert, b2c_publish_sent}
use traffic_director.Window.{InflightWindows, new, encode_raw, track_b2c}
use traffic_director.Codec.{
  at_least_once, mqtt3, PacketV3, server_shutting_down, Disconnect, MqttPacket, v3,
}
use traffic_director.Result.{ok}
use traffic_director.Prelude.{refl, ◌≡◌, none, some, [], ◌∷◌}

abbrev pub publish_seven : MqttPacket
publish_seven =
    v3 (PacketV3.publish (record { qos = at_least_once; packet_id = some 7; rest = 1 ∷ [] }))

abbrev pub conn : Conn (Unit {0})
conn = record { codec = tt; read_buf = []; sent = []; room = 8 }

abbrev pub loop : Loop (Unit {0})
loop = record {
  session = record {
    client = conn;
    broker = none;
    hs = record { version = mqtt3; connect_raw = []; keep_alive = 60 };
    windows = new;
    subscriptions = [];
    buffer = empty_buffer;
    broker_leftover = [];
  };
  delay = broker_retry_initial;
  step = connect_step;
  last_client_activity = 0;
}

abbrev published : InflightWindows
published = record { c2b = (7, (c2b_publish_sent, 50 ∷ 7 ∷ 1 ∷ [])) ∷ []; b2c = [] }

abbrev pub maintenance : Disconnect
maintenance = record {
  reason_code = server_shutting_down;
  session_expiry_interval_secs = none;
  server_reference = none;
  reason_string = none;
  user_properties = [];
}

abbrev delivered : InflightWindows
delivered = record { c2b = []; b2c = (7, (b2c_publish_sent, 50 ∷ 7 ∷ 1 ∷ [])) ∷ [] }

track_b2c_run : track_b2c toy new publish_seven ≡ ok delivered
unfolding track_b2c vec_insert encode_raw
track_b2c_run = refl
