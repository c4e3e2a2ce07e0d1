-- ===== src/Session/Loop/Keeps.antt =====
-- A property that every operation of a session keeps is kept by the loop of src/session/forward.rs in
-- every phase, across outages, replays and freezes.
use traffic_director.Session.Replay.{establish_broker}
use traffic_director.Session.Outage.{service_outage_packet}
use traffic_director.Session.{codec_for}
use traffic_director.Session.Keepalive.{client_deadline}
use traffic_director.Exec.Post.{Post, Post-step, Post-bind, Post-thread}
use traffic_director.Session.Connected.{Loop, Flow, continues, ends}
use traffic_director.Session.Freeze.{FreezeOutcome, resume, exit}
use traffic_director.Session.Conn.{Conn, Next, next_packet, next_error, next_none, polled}
use traffic_director.Session.Loop.{
  Event, client_yields, broker_yields, freezes, control_closed, wait_ends, time_is, thawed, expire,
  connected, on_client_outage, on_wait, outage, in_phase, turn, then_loop, forward_loop, freeze,
  with_broker, served_of, link_of, after_link, reconnected,
}
use traffic_director.Exec.{Exec}
use traffic_director.Codec.{MqttPacket, CodecLib}
use traffic_director.Prelude.{ℕ, inl, inr, Option, none, some, List, [], ◌∷◌, leb, Bool-cases, All}
use traffic_director.Result.{ok}
use traffic_director.Session.Connected.Keeps.{on_client_next-Has, on_broker_next-Has}
use traffic_director.Session.Kept.{Property, NextFrom, Has, HasAfter, HasLink, Kept}

-- What the two sides of the session send.
abbrev pub EventFrom :
    {C : Type 0} → (MqttPacket → Type 0) → (MqttPacket → Type 0) → Event C → Type 0
EventFrom FromClient FromBroker (client_yields now next) = NextFrom FromClient next
EventFrom FromClient FromBroker (broker_yields next) = NextFrom FromBroker next
EventFrom FromClient FromBroker _ = Unit

module _ {C : Type 0} (lib : CodecLib C) (P : Property) (id fd : ℕ) where
  -- The state with an answered freeze.
  thawed-Has : (o : FreezeOutcome C) (l : Loop C) → Has P l → Post (HasAfter P) (thawed o l)
  thawed-Has (resume client broker) l v = v
  thawed-Has exit l v = v

  expire-Has :
      (now : ℕ) (b : Option (Conn C)) (l : Loop C)
      → Has P l
      → Post (HasAfter P) (expire lib id fd now b l)
  unfolding expire
  expire-Has now b l v =
      elim (Bool-cases (leb (client_deadline l.session.hs.keep_alive l.last_client_activity) now)) [
        | inl late ↦ rw late v
        | inr early ↦ rw early v
      ]

  module _ {FromClient FromBroker : MqttPacket → Type 0}
      (k : Kept lib P FromClient FromBroker) where
    connected-Has :
        (b : Conn C) (e : Event C) (l : Loop C)
        → EventFrom FromClient FromBroker e
        → Has P l
        → Post (HasAfter P) (connected lib id fd b e l)
    unfolding connected freeze
    connected-Has b (client_yields now next) l o v = on_client_next-Has lib P k now b next l o v
    connected-Has b (broker_yields next) l o v = on_broker_next-Has lib P k b next l o v
    connected-Has b (freezes a) l o v = thawed-Has _ l v
    connected-Has b control_closed l o v = v
    connected-Has b (time_is now) l o v = expire-Has now (some b) l v
    connected-Has b (wait_ends s connack suback) l o v = v

    on_client_outage-Has :
        (now : ℕ) (next : Next C) (l : Loop C)
        → NextFrom FromClient next
        → Has P l
        → Post (HasAfter P) (on_client_outage lib id fd now next l)
    unfolding on_client_outage
    on_client_outage-Has now (next_packet p codec buf) l o v =
        let l₁ : Loop C = record l {
          session = record l.session { client = polled l.session.client codec buf };
          last_client_activity = now;
        } in
        Post-step (HasAfter P) (service_outage_packet lib p (served_of l₁)).0 _ _
          (λ u. k.served l.session.hs.version p (served_of l₁) o v)
    on_client_outage-Has now (next_error codec buf) l o v = tt
    on_client_outage-Has now (next_none codec buf) l o v = v

    on_wait-Has :
        (o : Option (Conn C)) (connack suback : Next C) (l : Loop C)
        → Has P l
        → Post (HasAfter P) (on_wait lib id fd o connack suback l)
    unfolding on_wait
    on_wait-Has (some stream) connack suback l v =
        let b : Conn C = record stream {
          codec = codec_for lib l.session.hs.version;
          read_buf = [];
        } in
        Post-thread (HasAfter P) (HasLink P l.session.hs.version l.session.subscriptions)
          (establish_broker lib l.session.hs.version l.session.hs.connect_raw
            l.session.subscriptions connack suback (link_of l b))
          (after_link l) (λ u k l'. (ok continues, reconnected lib id fd k.broker l'))
          (k.replayed l.session.hs.version l.session.hs.connect_raw l.session.subscriptions connack
            suback (link_of l b) v)
          (λ u k h. h)
    on_wait-Has none connack suback l v = v

    outage-Has :
        (e : Event C) (l : Loop C)
        → EventFrom FromClient FromBroker e
        → Has P l
        → Post (HasAfter P) (outage lib id fd e l)
    unfolding outage freeze
    outage-Has (client_yields now next) l o v = on_client_outage-Has now next l o v
    outage-Has (freezes a) l o v = thawed-Has _ l v
    outage-Has control_closed l o v = v
    outage-Has (wait_ends s connack suback) l o v = on_wait-Has _ connack suback l v
    outage-Has (time_is now) l o v = expire-Has now none l v
    outage-Has (broker_yields next) l o v = v

    in_phase-Has :
        (b : Option (Conn C)) (e : Event C) (l : Loop C)
        → EventFrom FromClient FromBroker e
        → Has P l
        → Post (HasAfter P) (in_phase lib id fd b e l)
    in_phase-Has none e l o v = outage-Has e l o v
    in_phase-Has (some b) e l o v = connected-Has b e (with_broker none l) o v

    pub turn-Has :
        (e : Event C) (l : Loop C)
        → EventFrom FromClient FromBroker e
        → Has P l
        → Post (HasAfter P) (turn lib id fd e l)
    unfolding turn
    turn-Has e l o v = in_phase-Has l.session.broker e l o v

    then_loop-Has :
        (rest : Exec (Loop C) Flow) (f : Flow) (l : Loop C)
        → Has P l
        → Post (HasAfter P) (rest l)
        → Post (HasAfter P) (then_loop lib id fd rest f l)
    then_loop-Has rest continues l v h = h
    then_loop-Has rest ends l v h = v

    pub forward_loop-Has :
        (events : List (Event C)) (l : Loop C)
        → All (EventFrom FromClient FromBroker) events
        → Has P l
        → Post (HasAfter P) (forward_loop lib id fd events l)
    unfolding forward_loop
    forward_loop-Has [] l o v = v
    forward_loop-Has (e ∷ events) l o v =
        Post-bind (HasAfter P) (HasAfter P) (turn lib id fd e l) _ (turn-Has e l o.0 v) (λ f l₁ v₁.
          then_loop-Has (forward_loop lib id fd events) f l₁ v₁ (forward_loop-Has events l₁ o.1 v₁))

    -- A run whose first turn brought the property about.
    pub forward_loop-first :
        (e : Event C) (events : List (Event C)) (l : Loop C)
        → All (EventFrom FromClient FromBroker) events
        → Post (HasAfter P) (turn lib id fd e l)
        → Post (HasAfter P) (forward_loop lib id fd (e ∷ events) l)
    unfolding forward_loop
    forward_loop-first e events l o h =
        Post-bind (HasAfter P) (HasAfter P) (turn lib id fd e l) _ h (λ f l₁ v₁.
          then_loop-Has (forward_loop lib id fd events) f l₁ v₁ (forward_loop-Has events l₁ o v₁))
