-- ===== src/Session/Loop/Downstream.antt =====
-- What the broker publishes to a client through the loop of src/session/forward.rs stays in flight
-- until the client answers for it.
use traffic_director.Session.Replay.Deferred.{b2c-track_flushed}
use traffic_director.Session.Outage.Cases.{service_cases}
use traffic_director.Session.Replay.Flush.{kind_of}
use mathlib.Core.Path.{subst}
use traffic_director.Exec.Post.{Post}
use traffic_director.Session.Connected.{Loop}
use traffic_director.Session.Subscriptions.{Subscriptions}
use traffic_director.Session.Replay.{Link, establish_broker}
use traffic_director.Session.Conn.{Conn, Next, next_packet}
use traffic_director.Session.Loop.{
  Event, broker_yields, forward_loop, in_phase, with_broker, turn, connected,
}
use traffic_director.Window.Signals.{publishes, signal}
use traffic_director.Window.InFlight.{
  track_b2c-starts, InFlight, Leaves, track_c2b-b2c, track_b2c-b2c,
}
use traffic_director.Window.{is_at_most_once}
use traffic_director.Codec.{QoS, ProtocolVersion, MqttPacket, CodecLib}
use traffic_director.Prelude.{Bytes, ℕ, ◌≡◌, sym, false, Option, none, some, List, ◌∷◌, All}
use traffic_director.Session.Replay.Windows.{establish_broker-keeps}
use traffic_director.Session.Connected.Tracks.{on_broker_next-tracks}
use traffic_director.Session.Loop.Keeps.{EventFrom, forward_loop-first}
use traffic_director.Session.Kept.{Property, HasAfter, HasServed, HasLink, Kept}

-- The broker's publish of this identifier is in flight.
abbrev pub Undelivered : ℕ → Property
Undelivered id ver w b t = InFlight w.b2c id

module _ {C : Type 0} (lib : CodecLib C) (id : ℕ) where
  replay-Undelivered :
      (ver : ProtocolVersion) (connect_raw : Bytes) (t : Subscriptions) (connack suback : Next C)
      (k : Link C)
      → HasLink (Undelivered id) ver t tt k
      → Post
          (HasLink (Undelivered id) ver t)
          (establish_broker lib ver connect_raw t connack suback k)
  replay-Undelivered ver connect_raw t connack suback k h =
      establish_broker-keeps (λ w es. InFlight w.b2c id)
        (λ w e es v.
          subst (λ s. InFlight s id) (sym (b2c-track_flushed w (kind_of e.raw) e.packet_id e.raw))
            v)
        lib ver connect_raw t connack suback k h

  Undelivered-Kept : Kept lib (Undelivered id) (Leaves id) (λ p. Unit)
  Undelivered-Kept = record {
    client_tracked = λ ver w w' b t p o e h. track_c2b-b2c lib w w' p id o e h;
    table_tracked = λ ver w b t p o h. h;
    broker_tracked = λ ver w w' b t p o e h. track_b2c-b2c lib w w' p id e h;
    served = λ ver p s o h.
        service_cases lib (HasServed (Undelivered id) ver) s p h (λ b i q n raw e t x. h)
          (λ w same e. track_c2b-b2c lib s.windows w p id o e h) (λ c same e. h);
    replayed = replay-Undelivered;
  }

  -- Once a session with a broker connection has taken a publish of QoS 1 or 2 with an identifier
  -- from the broker, the identifier is in flight in the broker-to-client window, whatever happens to
  -- the session after that, as long as `forward_loop` returns without an error and no packet of the
  -- client acknowledges or completes the identifier.
  pub forward_loop-Undelivered :
      (loop_id fd : ℕ) (b : Conn C) (p : MqttPacket) (qos : QoS) (codec : C) (buf : Bytes)
      (events : List (Event C)) (l : Loop C)
      → l.session.broker ≡ some b
      → signal p ≡ publishes qos (some id)
      → is_at_most_once qos ≡ false
      → All (EventFrom (Leaves id) (λ p. Unit)) events
      → Post
          (HasAfter (Undelivered id))
          (forward_loop lib loop_id fd (broker_yields (next_packet p codec buf) ∷ events) l)
  unfolding turn connected
  forward_loop-Undelivered loop_id fd b p qos codec buf events l up s q o =
      forward_loop-first lib (Undelivered id) loop_id fd Undelivered-Kept
        (broker_yields (next_packet p codec buf)) events l o (taken l.session.broker up)
    where
      taken :
          (o : Option (Conn C))
          → o ≡ some b
          → Post
              (HasAfter (Undelivered id))
              (in_phase lib loop_id fd o (broker_yields (next_packet p codec buf)) l)
      taken none h = cc
      taken (some b') h =
          on_broker_next-tracks lib (λ w. InFlight w.b2c id) p b' codec buf (with_broker none l)
            (λ e. cc) (λ w w' t. track_b2c-starts lib w w' p id qos s q t)
