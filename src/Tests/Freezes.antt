-- ===== src/Tests/Freezes.antt =====
-- Tests of the freeze and the adoption of src/session/forward.rs: a session with unread bytes.
use traffic_director.Session.Keepalive.{from_millis, from_secs}
use traffic_director.Session.Freeze.Migration.{adopt_session-session_snapshot}
use traffic_director.Tests.Toy.{connects}
use traffic_director.Session.Backoff.{after_failures, on_no_stream, on_no_stream-after_failures}
use traffic_director.Session.Handshake.{Handshake, from_snapshot_version, version_byte}
use traffic_director.Session.Subscriptions.{Subscriptions}
use traffic_director.Session.Freeze.{connect_step, backoff_step, session_snapshot, adopt_session}
use traffic_director.Session.Outage.{OutageBuffer}
use traffic_director.Session.Conn.{Conn}
use traffic_director.Window.Invariant.{IsValid}
use traffic_director.Window.Vec.{c2b_publish_sent, vec_contains}
use traffic_director.Window.{InflightWindows}
use traffic_director.Codec.{mqtt3}
use traffic_director.Result.{ok}
use traffic_director.Prelude.{refl, ◌*◌, ◌^◌, ◌≡◌, none, some, [], ◌∷◌, arith, min}

abbrev client : Conn (Unit {0})
client = record { codec = tt; read_buf = 192 ∷ []; sent = (32 ∷ []) ∷ []; room = 8 }

abbrev broker : Conn (Unit {0})
broker = record { codec = tt; read_buf = 48 ∷ 9 ∷ []; sent = []; room = 8 }

abbrev hs : Handshake
hs = record { version = mqtt3; connect_raw = 60 ∷ 5 ∷ []; keep_alive = 60 }

abbrev windows : InflightWindows
windows = record { c2b = (3, (c2b_publish_sent, 50 ∷ 3 ∷ [])) ∷ []; b2c = [] }

abbrev table : Subscriptions
table = record { topic_filter = "a"; options = 1 } ∷ []

abbrev owed : OutageBuffer
owed = record { entries = record { packet_id = 7; raw = 50 ∷ 7 ∷ []; qos = 1 } ∷ []; bytes = 2 }

windows-IsValid : IsValid windows
unfolding vec_contains
windows-IsValid = record {
  c2b_distinct = (refl, tt);
  b2c_distinct = tt;
  c2b_states = ((omega arith, refl), tt);
  b2c_states = tt;
}

version_run : from_snapshot_version connects (version_byte hs) hs.connect_raw ≡ ok hs
unfolding from_snapshot_version version_byte
version_run = refl

adopt_session-session_snapshot_example :
    adopt_session connects
      (ok tt)
      (ok client)
      (session_snapshot client (some broker) hs windows table owed)
    ≡ ok (record {
      client = client;
      broker = none;
      hs = hs;
      windows = windows;
      subscriptions = table;
      buffer = owed;
      broker_leftover = 48 ∷ 9 ∷ [];
    })
adopt_session-session_snapshot_example =
    adopt_session-session_snapshot connects client client (some broker) hs windows table owed
      windows-IsValid refl version_run

on_no_stream-after_failures_example :
    ((after_failures 7).0 ≡ connect_step)
    × ((on_no_stream (after_failures 7).0 (after_failures 7).1).0
        ≡ backoff_step (min (from_millis 100 * 2 ^ 7) (from_secs 5)))
on_no_stream-after_failures_example = on_no_stream-after_failures 7
