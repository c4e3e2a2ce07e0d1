-- ===== src/Session/Loop/Upstream.antt =====
-- What a client publishes through the loop of src/session/forward.rs is held until the broker answers
-- for it: in the window, or, during an outage, in the outage buffer.
use traffic_director.Session.Connected.Tracks.{on_client_next-tracks}
use traffic_director.Session.Loop.Keeps.{forward_loop-first, EventFrom}
use traffic_director.Session.Outage.Accepts.{service-Buffers, Publishes, Buffers, push-entries}
use traffic_director.Session.Connected.{Loop, continues}
use traffic_director.Session.Loop.{
  Event, client_yields, turn, connected, on_client_outage, forward_loop, in_phase, with_broker,
  served_of, after_service,
}
use traffic_director.Session.Replay.Windows.{establish_broker-keeps}
use mathlib.Core.Path.{subst}
use traffic_director.Session.Outage.Cases.{service_cases}
use traffic_director.Exec.Post.{Post, Post-thread, Post-mono}
use traffic_director.Session.Subscriptions.{Subscriptions}
use traffic_director.Session.Outage.{OutageBuffer, Served, push, service_outage_packet}
use traffic_director.Session.Conn.{Next, Conn, next_packet, polled}
use traffic_director.Codec.{QoS, ProtocolVersion, MqttPacket, CodecLib, HasMqttHeaders}
use traffic_director.Result.{ok}
use traffic_director.Window.Signals.{publishes, signal}
use traffic_director.Window.Phases.{phase-vec_insert}
use traffic_director.Session.Replay.{track_flushed, Link, establish_broker}
use traffic_director.Session.Replay.Flush.{kind_of}
use traffic_director.Window.InFlight.{
  track_c2b-starts, InFlight, Leaves, track_c2b-c2b, track_b2c-c2b,
}
use traffic_director.Window.Vec.{c2b_publish_sent, c2b_pubrel_sent}
use traffic_director.Registry.{BufferedPublish}
use traffic_director.Window.{InflightWindows, insert_c2b_raw, track_c2b, track_b2c, is_at_most_once}
use traffic_director.Prelude.{
  Bytes, ℕ, ◌≡◌, ◌⊎◌, inl, inr, List, ◌∷◌, arith, Any, sym, false, Option, none, some, Any-append,
  All,
}
use traffic_director.Session.Kept.{Property, HasLink, Kept, HasAfter}

abbrev pub Held : ℕ → InflightWindows → List BufferedPublish → Type 0
Held id w entries = InFlight w.c2b id ⊎ Any (Publishes id) entries

-- The client's publish of this identifier is in flight or buffered.
abbrev pub Owed : ℕ → Property
Owed id ver w b t = Held id w b.entries

phase-track_flushed :
    (w : InflightWindows) (kind i id : ℕ) (raw : Bytes)
    → InFlight w.c2b id
    → InFlight (track_flushed w kind i raw).c2b id
unfolding track_flushed insert_c2b_raw
phase-track_flushed w kind i id raw h e = ground (
  arith,
  phase-vec_insert w.c2b i id (c2b_publish_sent, raw),
  phase-vec_insert w.c2b i id (c2b_pubrel_sent, raw),
)

flushed_one :
    (w : InflightWindows) (e : BufferedPublish) (id : ℕ)
    → Publishes id e
    → InFlight (track_flushed w (kind_of e.raw) e.packet_id e.raw).c2b id
unfolding track_flushed insert_c2b_raw
flushed_one w e id (i, k) none_left = ground (
  arith,
  phase-vec_insert w.c2b e.packet_id id (c2b_publish_sent, e.raw),
  phase-vec_insert w.c2b e.packet_id id (c2b_pubrel_sent, e.raw),
)

track_flushed-Held :
    (id : ℕ) (w : InflightWindows) (e : BufferedPublish) (es : List BufferedPublish)
    → Held id w (e ∷ es)
    → Held id (track_flushed w (kind_of e.raw) e.packet_id e.raw) es
track_flushed-Held id w e es (inl h) =
    inl (phase-track_flushed w (kind_of e.raw) e.packet_id id e.raw h)
track_flushed-Held id w e es (inr (inl h)) = inl (flushed_one w e id h)
track_flushed-Held id w e es (inr (inr h)) = inr h

push-Held :
    (id : ℕ) (w : InflightWindows) (b b' : OutageBuffer) (i : ℕ) (raw : Bytes) (q : ℕ)
    → push b i raw q ≡ ok b'
    → Held id w b.entries
    → Held id w b'.entries
push-Held id w b b' i raw q e (inl h) = inl h
push-Held id w b b' i raw q e (inr h) = inr (
    subst (Any (Publishes id)) (sym (push-entries b b' i raw q e))
      (Any-append (Publishes id) b.entries _ h))

module _ {C : Type 0} (lib : CodecLib C) (id : ℕ) where
  abbrev HoldsIt : {A : Type 0} → A → Served C → Type 0
  HoldsIt a s = Held id s.windows s.buffer.entries

  replay-Owed :
      (ver : ProtocolVersion) (connect_raw : Bytes) (t : Subscriptions) (connack suback : Next C)
      (k : Link C)
      → HasLink (Owed id) ver t tt k
      → Post (HasLink (Owed id) ver t) (establish_broker lib ver connect_raw t connack suback k)
  replay-Owed ver connect_raw t connack suback k h =
      establish_broker-keeps (Held id) (track_flushed-Held id) lib ver connect_raw t connack suback
        k h

  track_c2b-Held :
      (w w' : InflightWindows) (p : MqttPacket) (es : List BufferedPublish)
      → track_c2b lib w p ≡ ok w'
      → Held id w es
      → Held id w' es
  track_c2b-Held w w' p es t (inl h) = inl (track_c2b-c2b lib w w' p id t h)
  track_c2b-Held w w' p es t (inr h) = inr h

  track_b2c-Held :
      (w w' : InflightWindows) (p : MqttPacket) (es : List BufferedPublish)
      → Leaves id p
      → track_b2c lib w p ≡ ok w'
      → Held id w es
      → Held id w' es
  track_b2c-Held w w' p es o t (inl h) = inl (track_b2c-c2b lib w w' p id o t h)
  track_b2c-Held w w' p es o t (inr h) = inr h

  Owed-Kept : Kept lib (Owed id) (λ p. Unit) (Leaves id)
  Owed-Kept = record {
    client_tracked = λ ver w w' b t p o e h. track_c2b-Held w w' p b.entries e h;
    table_tracked = λ ver w b t p o h. h;
    broker_tracked = λ ver w w' b t p o e h. track_b2c-Held w w' p b.entries o e h;
    served = λ ver p s o h.
        service_cases lib (HoldsIt tt) s p h
          (λ b i q n raw e t x. push-Held id s.windows s.buffer b i raw q x h)
          (λ w same e. track_c2b-Held s.windows w p s.buffer.entries e h) (λ c same e. h);
    replayed = replay-Owed;
  }

  -- Once a session has taken a publish of QoS 1 or 2 with an identifier from its client, with a broker
  -- connection or without one, the identifier is in flight in the client-to-broker window or a PUBLISH
  -- or PUBREL with it is in the outage buffer, whatever happens to the session after that, as long as
  -- `forward_loop` returns without an error and no packet that is read from the broker acknowledges
  -- or completes the identifier.
  pub forward_loop-Owed :
      (laws : HasMqttHeaders lib) (loop_id fd now : ℕ) (p : MqttPacket) (qos : QoS) (codec : C)
      (buf : Bytes) (events : List (Event C)) (l : Loop C)
      → signal p ≡ publishes qos (some id)
      → is_at_most_once qos ≡ false
      → All (EventFrom (λ p. Unit) (Leaves id)) events
      → Post
          (HasAfter (Owed id))
          (forward_loop lib loop_id fd (client_yields now (next_packet p codec buf) ∷ events) l)
  unfolding turn connected on_client_outage
  forward_loop-Owed laws loop_id fd now p qos codec buf events l s q o =
      forward_loop-first lib (Owed id) loop_id fd Owed-Kept
        (client_yields now (next_packet p codec buf)) events l o (taken l.session.broker)
    where
      taken :
          (o : Option (Conn C))
          → Post
              (HasAfter (Owed id))
              (in_phase lib loop_id fd o (client_yields now (next_packet p codec buf)) l)
      taken (some b) =
          Post-mono (λ a l'. InFlight l'.session.windows.c2b id) (HasAfter (Owed id)) _
            (on_client_next-tracks lib (λ w. InFlight w.c2b id) p now b codec buf
              (with_broker none l) (λ w w' t. track_c2b-starts lib w w' p id qos s q t))
            (λ a l' h. inl h)
      taken none =
          let l₁ : Loop C = record l {
            session = record l.session { client = polled l.session.client codec buf };
            last_client_activity = now;
          } in
          Post-thread (HasAfter (Owed id)) (Buffers lib id)
            (service_outage_packet lib p (served_of l₁)) (after_service l₁)
            (λ u s l'. (ok continues, l')) (service-Buffers lib id laws p qos (served_of l₁) s q)
            (λ u s h. inr h)
