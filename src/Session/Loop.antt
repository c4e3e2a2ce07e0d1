-- ===== src/Session/Loop.antt =====
-- `forward_loop` of src/session/forward.rs, turn by turn; a run is a list of events. What a
-- `select!` picks is an event; an event that the phase does not wait for is not picked.
pub mod Keeps
pub mod Downstream
pub mod Upstream
pub mod Repeated
pub mod Subscribed
pub mod Invariant
pub mod Recovery
pub mod Maintenance
pub mod Sessions
use traffic_director.Session.Backoff.{on_no_stream}
use traffic_director.Session.{codec_for}
use traffic_director.Session.Keepalive.{client_deadline, close_for_keepalive}
use traffic_director.Session.Connected.{Loop, Flow, continues, ends, on_client_next, on_broker_next}
use traffic_director.Session.Replay.{Link, establish_broker}
use traffic_director.Session.Freeze.{
  Answer, FreezeOutcome, resume, exit, OutageStep, connect_step, backoff_step, Session,
  handle_freeze,
}
use traffic_director.Session.Outage.{Served, broker_retry_initial, service_outage_packet}
use traffic_director.Session.Conn.{Conn, Next, next_packet, next_error, next_none, polled}
use traffic_director.Exec.{Exec, pure, continue}
use traffic_director.Codec.{CodecLib}
use traffic_director.Prelude.{ℕ, Option, none, some, List, [], ◌∷◌, leb, if◌then◌else◌}
use traffic_director.Result.{invalid_data, ok, err}

pub data Event (C : Type 0) : Type 0 where
  client_yields : ℕ → Next C → Event C
  broker_yields : Next C → Event C
  freezes : Answer → Event C
  control_closed : Event C
  wait_ends : Option (Conn C) → Next C → Next C → Event C
  time_is : ℕ → Event C

-- The awaited connect may yield a stream; a sleep yields `None`.
abbrev pub wait_result : {C : Type 0} → OutageStep → Option (Conn C) → Option (Conn C)
wait_result connect_step stream = stream
wait_result (backoff_step d) stream = none

module _ {C : Type 0} where
  -- The variables before the first turn.
  abbrev pub begin : Session C → ℕ → Loop C
  begin s now = record {
    session = s;
    delay = broker_retry_initial;
    step = connect_step;
    last_client_activity = now;
  }

  abbrev pub with_broker : Option (Conn C) → Loop C → Loop C
  with_broker b l = record l { session = record l.session { broker = b } }

  -- What `service_outage_packet` borrows, and the loop after it.
  abbrev pub served_of : Loop C → Served C
  served_of l = record {
    client = l.session.client;
    buffer = l.session.buffer;
    subscriptions = l.session.subscriptions;
    windows = l.session.windows;
  }

  abbrev pub after_service : Loop C → Served C → Loop C
  after_service l s = record l {
    session = record l.session {
      client = s.client;
      buffer = s.buffer;
      subscriptions = s.subscriptions;
      windows = s.windows;
    };
  }

  -- What `establish_broker` borrows, and the loop after it.
  abbrev pub link_of : Loop C → Conn C → Link C
  link_of l b = record {
    broker = b;
    client = l.session.client;
    windows = l.session.windows;
    buffer = l.session.buffer;
    broker_leftover = l.session.broker_leftover;
    keep_alive = l.session.hs.keep_alive;
  }

  abbrev pub after_link : Loop C → Link C → Loop C
  after_link l k = record l {
    session = record l.session {
      client = k.client;
      windows = k.windows;
      buffer = k.buffer;
      broker_leftover = k.broker_leftover;
      hs = record l.session.hs { keep_alive = k.keep_alive };
    };
  }

  abbrev thawed : FreezeOutcome C → Exec (Loop C) Flow
  thawed (resume client broker) l =
      (ok continues, record l { session = record l.session { client = client; broker = broker } })
  thawed exit l = (ok ends, l)

module _ {C : Type 0} (lib : CodecLib C) (id fd : ℕ) where
  -- The control arm of both phases.
  freeze : Answer → Option (Conn C) → Exec (Loop C) Flow
  freeze a b l =
      thawed
        (handle_freeze a id fd l.session.client b l.session.hs l.session.windows
          l.session.subscriptions l.session.buffer)
        l

  -- The deadline arm of both phases, with the broker connection that is put back if it is early.
  expire : ℕ → Option (Conn C) → Exec (Loop C) Flow
  expire now b l =
      if leb (client_deadline l.session.hs.keep_alive l.last_client_activity) now
      then (
        ok ends,
        record l {
          session = record l.session {
            client = close_for_keepalive lib l.session.client l.session.hs.version;
          };
        },
      )
      else (ok continues, with_broker b l)

  -- The connected phase; `b` has been taken.
  connected : Conn C → Event C → Exec (Loop C) Flow
  unfolding freeze expire
  connected b (client_yields now next) l = on_client_next lib now b next l
  connected b (broker_yields next) l = on_broker_next lib b next l
  connected b (freezes a) l = freeze a (some b) l
  connected b control_closed l = (ok ends, l)
  connected b (time_is now) l = expire now (some b) l
  connected b (wait_ends o connack suback) l = (ok continues, with_broker (some b) l)

  -- The arm of `client.next()` in an outage.
  on_client_outage : ℕ → Next C → Exec (Loop C) Flow
  on_client_outage now (next_packet p codec buf) l =
      let l₁ : Loop C = record l {
        session = record l.session { client = polled l.session.client codec buf };
        last_client_activity = now;
      } in
      let (r, s) = service_outage_packet lib p (served_of l₁) in
      continue r (λ u. pure continues) (after_service l₁ s)
  on_client_outage now (next_error codec buf) l = (err invalid_data, l)
  on_client_outage now (next_none codec buf) l = (ok ends, l)

  -- The loop with an established broker connection.
  abbrev pub reconnected : Conn C → Loop C → Loop C
  reconnected b l = record l {
    session = record l.session { broker = some b };
    delay = broker_retry_initial;
    step = connect_step;
  }

  -- The arm of `wait`.
  on_wait : Option (Conn C) → Next C → Next C → Exec (Loop C) Flow
  on_wait (some stream) connack suback l =
      let b : Conn C = record stream {
        codec = codec_for lib l.session.hs.version;
        read_buf = [];
      } in
      let (r, k) =
        establish_broker lib l.session.hs.version l.session.hs.connect_raw l.session.subscriptions
          connack suback (link_of l b) in
      continue r (λ u l'. (ok continues, reconnected k.broker l')) (after_link l k)
  on_wait none connack suback l =
      let (step, delay) = on_no_stream l.step l.delay in
      (ok continues, record l { step = step; delay = delay })

  outage : Event C → Exec (Loop C) Flow
  unfolding freeze expire on_client_outage on_wait
  outage (client_yields now next) l = on_client_outage now next l
  outage (freezes a) l = freeze a none l
  outage control_closed l = (ok ends, l)
  outage (wait_ends o connack suback) l = on_wait (wait_result l.step o) connack suback l
  outage (time_is now) l = expire now none l
  outage (broker_yields next) l = (ok continues, l)

  -- One turn of the loop.
  abbrev in_phase : Option (Conn C) → Event C → Exec (Loop C) Flow
  in_phase none e l = outage e l
  in_phase (some b) e l = connected b e (with_broker none l)

  unfoldable pub turn : Event C → Exec (Loop C) Flow
  unfolding connected outage
  turn e l = in_phase l.session.broker e l

  abbrev then_loop : Exec (Loop C) Flow → Flow → Exec (Loop C) Flow
  then_loop rest continues = rest
  then_loop rest ends = pure ends

  -- The loop over a sequence of events: `continues` if it waits for another.
  unfoldable pub forward_loop : List (Event C) → Exec (Loop C) Flow
  forward_loop [] l = (ok continues, l)
  forward_loop (e ∷ events) l =
      let (r, l') = turn e l in continue r (then_loop (forward_loop events)) l'
