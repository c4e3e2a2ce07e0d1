-- ===== src/Session/Loop/Invariant.antt =====
-- The invariant of the loop of src/session/forward.rs in every phase, across outages, replays and
-- freezes.
use mathlib.Core.Path.{subst}
use traffic_director.Exec.Post.{Post, Post-mono}
use traffic_director.Session.Subscriptions.Shape.{IsOf, IsRestorable, track-IsRestorable}
use traffic_director.Session.Replay.Done.{Done, establish_broker-Done}
use traffic_director.Session.Outage.Buffer.{IsBuffer, empty_buffer-IsBuffer}
use traffic_director.Session.Outage.Service.{IsServed, service-IsServed}
use traffic_director.Session.Connected.{Loop}
use traffic_director.Session.Subscriptions.{Subscriptions}
use traffic_director.Session.Replay.{Link, establish_broker}
use traffic_director.Session.Outage.{OutageBuffer, Served, service_outage_packet}
use traffic_director.Session.Conn.{Next}
use traffic_director.Session.Loop.{Event, forward_loop}
use traffic_director.Window.Invariant.{IsValid, track_c2b-IsValid, track_b2c-IsValid}
use traffic_director.Window.{InflightWindows}
use traffic_director.Codec.{ProtocolVersion, MqttPacket, CodecLib, HasMqttHeaders}
use traffic_director.Prelude.{Bytes, ℕ, ◌≡◌, sym, List, All}
use traffic_director.Session.Kept.{Has, HasAfter, HasLink, HasServed, Kept}
use traffic_director.Session.Loop.Keeps.{EventFrom, forward_loop-Has}

-- The client's packets are of the session's version.
abbrev pub EventOf : {C : Type 0} → ProtocolVersion → Event C → Type 0
EventOf ver = EventFrom (IsOf ver) (λ _. Unit)

-- The session speaks `ver`; the windows are valid, the outage buffer is bounded and counted, and
-- the table can be re-issued.
pub record Sound {C : Type 0} (lib : CodecLib C) (ver v : ProtocolVersion) (w : InflightWindows)
    (b : OutageBuffer) (t : Subscriptions) : Type 0 where
  pub speaks : v ≡ ver
  pub windows_ok : IsValid w
  pub buffer_ok : IsBuffer b
  pub table_ok : IsRestorable lib ver t

module _ {C : Type 0} (lib : CodecLib C) (ver : ProtocolVersion) where
  abbrev pub IsLive : Loop C → Type 0
  IsLive = Has (Sound lib ver)

  abbrev pub Lives : {A : Type 0} → A → Loop C → Type 0
  Lives = HasAfter (Sound lib ver)

  module _ (laws : HasMqttHeaders lib) where
    service-Sound :
        (v : ProtocolVersion) (p : MqttPacket) (s : Served C)
        → IsOf ver p
        → HasServed (Sound lib ver) v s
        → HasServed (Sound lib ver) v (service_outage_packet lib p s).1
    service-Sound v p s o h =
        let i : IsServed lib ver (service_outage_packet lib p s).1 =
          service-IsServed lib laws ver s p o (record {
            buffer_ok = h.buffer_ok;
            windows_ok = h.windows_ok;
            subscriptions_ok = h.table_ok;
          }) in
        record {
          speaks = h.speaks;
          windows_ok = i.windows_ok;
          buffer_ok = i.buffer_ok;
          table_ok = i.subscriptions_ok;
        }

    replay-Sound :
        (v : ProtocolVersion) (connect_raw : Bytes) (t : Subscriptions) (connack suback : Next C)
        (k : Link C)
        → HasLink (Sound lib ver) v t tt k
        → Post (HasLink (Sound lib ver) v t) (establish_broker lib v connect_raw t connack suback k)
    replay-Sound v connect_raw t connack suback k h =
        Post-mono Done (HasLink (Sound lib ver) v t) _
          (establish_broker-Done lib v connect_raw t connack suback k
            (h.windows_ok, h.buffer_ok.deferred))
          (λ u k' d. record {
            speaks = h.speaks;
            windows_ok = d.0;
            buffer_ok = subst IsBuffer (sym d.1) empty_buffer-IsBuffer;
            table_ok = h.table_ok;
          })

    Sound-Kept : Kept lib (Sound lib ver) (IsOf ver) (λ _. Unit)
    Sound-Kept = record {
      client_tracked = λ v w w' b t p o e h. record {
        speaks = h.speaks;
        windows_ok = track_c2b-IsValid lib laws w p h.windows_ok e;
        buffer_ok = h.buffer_ok;
        table_ok = h.table_ok;
      };
      table_tracked = λ v w b t p o h. record {
        speaks = h.speaks;
        windows_ok = h.windows_ok;
        buffer_ok = h.buffer_ok;
        table_ok = track-IsRestorable lib ver t p o h.table_ok;
      };
      broker_tracked = λ v w w' b t p o e h. record {
        speaks = h.speaks;
        windows_ok = track_b2c-IsValid lib laws w p h.windows_ok e;
        buffer_ok = h.buffer_ok;
        table_ok = h.table_ok;
      };
      served = service-Sound;
      replayed = replay-Sound;
    }

module _ {C : Type 0} (lib : CodecLib C) (laws : HasMqttHeaders lib) (id fd : ℕ)
    (ver : ProtocolVersion) where
  -- Whatever happens to a session, in any order and however often its broker goes and comes back,
  -- it is frozen and thawed, or writes fail: as long as `forward_loop` returns without an error, the session
  -- speaks its version, its windows are valid, its outage buffer holds at most 1 MiB and is counted,
  -- and its subscription table can be re-issued, provided that this held before and that the client
  -- sends packets of its version.
  pub forward_loop-IsLive :
      (events : List (Event C)) (l : Loop C)
      → All (EventOf ver) events
      → IsLive lib ver l
      → Post (Lives lib ver) (forward_loop lib id fd events l)
  forward_loop-IsLive = forward_loop-Has lib (Sound lib ver) id fd (Sound-Kept lib ver laws)
