-- ===== src/Tests/Loops.antt =====
-- Tests of the loop of src/session/forward.rs: a session that is up, loses its broker, is frozen and
-- thawed, and gets a new broker connection.
use traffic_director.Session.Replay.Writes.{wrote}
use traffic_director.Session.Loop.Maintenance.{
  IsMaintenance, disconnects, has_broker, forward_loop-disconnect,
}
use traffic_director.Session.Outage.{empty_buffer, broker_retry_initial}
use traffic_director.Session.Replay.Flush.{raws}
use traffic_director.Session.Outage.Buffer.{empty_buffer-IsBuffer}
use traffic_director.Session.Loop.Recovery.{attempts, down, forward_loop-recovers}
use traffic_director.Session.Loop.Invariant.{forward_loop-IsLive}
use traffic_director.Window.Invariant.{new-IsValid}
use traffic_director.Tests.Toy.{toy, toy_headers}
use traffic_director.Exec.Post.{Post}
use traffic_director.Session.Loop.Invariant.{IsLive, Lives}
use traffic_director.Session.Connected.{Loop, continues, ends}
use traffic_director.Session.Freeze.{refused, Session}
use traffic_director.Session.Conn.{Conn, next_packet, next_none}
use traffic_director.Session.Loop.{
  Event, client_yields, broker_yields, freezes, wait_ends, time_is, forward_loop,
}
use traffic_director.Codec.{mqtt3, PacketV3, v3, server_busy, keep_alive_timeout, Disconnect}
use traffic_director.Prelude.{◌≡◌, refl, inl, none, some, List, [], ◌∷◌, ◌++◌, arith, inr}
use traffic_director.Result.{ok}
use traffic_director.Tests.Replays.{
  link, connack, suback, table, connect_raw, patched, patch_run, to_broker_run, to_client_run,
  leftover-Drains, subscribed,
}
use traffic_director.Tests.Forwards.{publish_seven, conn, loop, maintenance}

abbrev pub events : List (Event (Unit {0}))
events =
    client_yields 5 (next_packet publish_seven tt [])
    ∷ broker_yields (next_none tt [])
    ∷ client_yields 6 (next_packet publish_seven tt [])
    ∷ freezes refused
    ∷ wait_ends (some conn) connack suback
    ∷ time_is 7
    ∷ []

abbrev pub up : Loop (Unit {0})
up = record loop {
  session = record loop.session {
    broker = some conn;
    hs = record loop.session.hs { connect_raw = connect_raw };
  };
}

pub up-IsLive : IsLive toy mqtt3 up
up-IsLive = record {
  speaks = refl;
  windows_ok = new-IsValid;
  buffer_ok = empty_buffer-IsBuffer;
  table_ok = record { distinct = tt; options = tt };
}

forward_loop-IsLive_example : Post (Lives toy mqtt3) (forward_loop toy 1 9 events up)
forward_loop-IsLive_example =
    forward_loop-IsLive toy toy_headers 1 9 mqtt3 events up (tt, (tt, (tt, (tt, (tt, (tt, tt))))))
      up-IsLive

abbrev pub busy : Session (Unit {0})
busy = record {
  client = link.client;
  broker = none;
  hs = record { version = mqtt3; connect_raw = connect_raw; keep_alive = 60 };
  windows = link.windows;
  subscriptions = table;
  buffer = link.buffer;
  broker_leftover = link.broker_leftover;
}

forward_loop-recovers_example :
    (b : Conn (Unit {0})) × (l : Loop (Unit {0})) × (forward_loop toy 1 9
        (attempts toy 1 9 connack suback 2 (wait_ends (some link.broker) connack suback ∷ []))
        (down busy 100 0)
      ≡ (ok continues, l))
    × (l.session.broker ≡ some b)
    × (b.sent
        ≡ ((link.broker.sent ++ (patched ∷ [])) ++ ((130 ∷ 1 ∷ []) ∷ []))
          ++ (((58 ∷ 3 ∷ []) ∷ []) ++ raws link.buffer.entries))
    × (l.session.client.sent ≡ link.client.sent ++ (((98 ∷ 6 ∷ []) ∷ []) ++ ((60 ∷ 5 ∷ []) ∷ [])))
    × (l.session.buffer ≡ empty_buffer)
    × (l.session.broker_leftover ≡ [])
    × (l.delay ≡ broker_retry_initial)
forward_loop-recovers_example =
    forward_loop-recovers toy 1 9 connack suback 2 link.broker busy 100 0 patched
      ((130 ∷ 1 ∷ []) ∷ []) (v3 (PacketV3.publish_release 6) ∷ []) ((98 ∷ 6 ∷ []) ∷ [])
      ((58 ∷ 3 ∷ []) ∷ []) ((60 ∷ 5 ∷ []) ∷ []) patch_run tt subscribed leftover-Drains
      (omega arith) (refl, tt) to_broker_run to_client_run (inl (omega arith, refl), tt)
      (omega arith) (omega arith)

abbrev too_busy : Disconnect
too_busy = record maintenance { reason_code = server_busy }

abbrev timed_out : Disconnect
timed_out = record maintenance { reason_code = keep_alive_timeout }

timed_out-not-IsMaintenance : ¬ IsMaintenance keep_alive_timeout
timed_out-not-IsMaintenance h = ground arith

forward_loop-disconnect_example :
    ((b' : Conn (Unit {0})) × (l : Loop (Unit {0})) × (forward_loop toy 1 9
          (disconnects toy 1 9 too_busy tt link.broker_leftover
            ∷ attempts toy 1 9 connack suback 2 (wait_ends (some link.broker) connack suback ∷ []))
          (has_broker busy conn 100 0)
        ≡ (ok continues, l))
      × (l.session.broker ≡ some b')
      × (b'.sent
          ≡ ((link.broker.sent ++ (patched ∷ [])) ++ ((130 ∷ 1 ∷ []) ∷ []))
            ++ (((58 ∷ 3 ∷ []) ∷ []) ++ raws link.buffer.entries))
      × (l.session.client.sent ≡ link.client.sent ++ (((98 ∷ 6 ∷ []) ∷ []) ++ ((60 ∷ 5 ∷ []) ∷ [])))
      × (l.session.buffer ≡ empty_buffer)
      × (l.session.broker_leftover ≡ [])
      × (l.delay ≡ broker_retry_initial))
    × (forward_loop toy 1 9
          (disconnects toy 1 9 timed_out tt link.broker_leftover ∷ events)
          (has_broker busy conn 100 0)
        ≡ (ok ends, down (record busy { client = wrote link.client ((224 ∷ 0 ∷ []) ∷ []) }) 100 0))
forward_loop-disconnect_example =
    forward_loop-disconnect toy 1 9 connack suback 2 link.broker conn busy 100 0 too_busy timed_out
      tt link.broker_leftover patched ((130 ∷ 1 ∷ []) ∷ []) (v3 (PacketV3.publish_release 6) ∷ [])
      ((98 ∷ 6 ∷ []) ∷ []) ((58 ∷ 3 ∷ []) ∷ []) ((60 ∷ 5 ∷ []) ∷ []) (224 ∷ 0 ∷ []) events
      (inr (inr (inl refl))) timed_out-not-IsMaintenance refl (omega arith) patch_run tt subscribed
      leftover-Drains (omega arith) (refl, tt) to_broker_run to_client_run
      (inl (omega arith, refl), tt) (omega arith) (omega arith)
