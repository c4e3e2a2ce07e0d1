-- ===== src/Session/Loop/Sessions.antt =====
-- The sessions that `run_session` and `adopt_session` of src/session/forward.rs start, in the loop.
use traffic_director.Exec.{map_err}
use traffic_director.Session.Freeze.Migration.{adopt_session-session_snapshot}
use traffic_director.Session.{codec_for}
use traffic_director.Session.Outage.{empty_buffer}
use traffic_director.Session.Handshake.{from_snapshot_version, handshake, version_byte}
use traffic_director.Session.Start.{run_session, acknowledged}
use traffic_director.Window.{new}
use traffic_director.Exec.Post.{Post}
use traffic_director.Session.Loop.Invariant.{IsLive, Lives}
use traffic_director.Session.Subscriptions.Shape.{IsRestorable}
use traffic_director.Session.Loop.Invariant.{EventOf, forward_loop-IsLive}
use traffic_director.Session.Outage.Buffer.{IsBuffer, empty_buffer-IsBuffer}
use traffic_director.Session.Connected.{Loop}
use traffic_director.Session.Freeze.{Session, adopt_session, session_snapshot, broker_bytes}
use traffic_director.Session.Conn.{Conn, Next, write_all, send}
use traffic_director.Window.Invariant.{IsValid, new-IsValid}
use traffic_director.Codec.{ProtocolVersion, CodecLib, HasMqttHeaders}
use traffic_director.Prelude.{ℕ, ◌≡◌, refl, sym, Option, none, List, [], All}
use traffic_director.Result.{Result, ok, err, panic, out_of_fuel, ◌>>=◌, invalid_data}
use mathlib.Core.Path.{subst}
use traffic_director.Session.Loop.{forward_loop, begin, Event}

-- `P` holds of what is returned.
abbrev Holds : {A : Type 0} → (A → Type 0) → Result A → Type 0
Holds P (ok a) = P a
Holds P _ = Unit

Holds-bind :
    {A B : Type 0} (P : B → Type 0) (m : Result A) (f : A → Result B)
    → ((a : A) → Holds P (f a))
    → Holds P (m >>= f)
Holds-bind P (ok a) f h = h a
Holds-bind P (err e) f h = tt
Holds-bind P panic f h = tt
Holds-bind P out_of_fuel f h = tt

module _ {C : Type 0} (lib : CodecLib C) where
  -- A new session holds nothing.
  IsNew : Session C → Type 0
  IsNew s = (s.windows ≡ new) × (s.buffer ≡ empty_buffer) × (s.subscriptions ≡ [])

  run_session-IsNew :
      (client : Conn C) (first second : Next C) (stream : Result (Conn C)) (ack : Next C)
      → Holds IsNew (run_session lib client first second stream ack)
  unfolding run_session IsNew
  run_session-IsNew client first second stream ack =
      Holds-bind IsNew (handshake lib client first second) _ (λ shaken.
        Holds-bind IsNew stream _ (λ s.
          let fresh : Conn C = record s { codec = codec_for lib shaken.1.version; read_buf = [] } in
          Holds-bind IsNew (write_all fresh shaken.1.connect_raw).0 _ (λ written.
            Holds-bind IsNew (acknowledged lib ack) _ (λ p.
              Holds-bind IsNew (map_err (send lib shaken.0 p).0 invalid_data) _
                (λ sent. (refl, refl, refl))))))

  begin-IsLive : (s : Session C) (now : ℕ) → IsNew s → IsLive lib s.hs.version (begin s now)
  unfolding IsNew
  begin-IsLive s now (w, b, t) = record {
    speaks = refl;
    windows_ok = subst IsValid (sym w) new-IsValid;
    buffer_ok = subst IsBuffer (sym b) empty_buffer-IsBuffer;
    table_ok =
        subst (IsRestorable lib s.hs.version) (sym t) (record { distinct = tt; options = tt });
  }

  -- A session that `run_session` starts keeps the invariant of the loop from its first packet on,
  -- whatever happens to it, as long as the loop returns without an error and the client sends
  -- packets of the version of its CONNECT.
  pub run_session-forward_loop :
      (laws : HasMqttHeaders lib) (id fd now : ℕ) (client : Conn C) (first second : Next C)
      (stream : Result (Conn C)) (ack : Next C) (s : Session C) (events : List (Event C))
      → run_session lib client first second stream ack ≡ ok s
      → All (EventOf s.hs.version) events
      → Post (Lives lib s.hs.version) (forward_loop lib id fd events (begin s now))
  run_session-forward_loop laws id fd now client first second stream ack s events e o =
      forward_loop-IsLive lib laws id fd s.hs.version events (begin s now) o (
        begin-IsLive s now
          (subst (Holds IsNew) e (run_session-IsNew client first second stream ack)))

  -- The invariant survives a migration: if it holds of a session and its handshake can be restored,
  -- up to the keepalive, which the snapshot does not hold, the new process adopts the session from
  -- its snapshot, and keeps the invariant from there on, whatever happens, as long as its loop
  -- returns without an error and the client sends packets of its version.
  pub adopt_session-forward_loop :
      (laws : HasMqttHeaders lib) (id fd now : ℕ) (ver : ProtocolVersion) (l : Loop C)
      (broker : Option (Conn C)) (stream : Conn C) (keep_alive : ℕ) (events : List (Event C))
      → IsLive lib ver l
      → from_snapshot_version lib (version_byte l.session.hs) l.session.hs.connect_raw
        ≡ ok (record l.session.hs { keep_alive = keep_alive })
      → All (EventOf ver) events
      → (s : Session C) × (adopt_session lib (ok tt) (ok stream) (
            session_snapshot l.session.client broker l.session.hs l.session.windows
              l.session.subscriptions l.session.buffer)
          ≡ ok s)
        × Post (Lives lib ver) (forward_loop lib id fd events (begin s now))
  unfolding session_snapshot version_byte
  adopt_session-forward_loop laws id fd now ver l broker stream keep_alive events v restored o =
      let s : Session C = record {
        client = record stream {
          codec = codec_for lib l.session.hs.version;
          read_buf = l.session.client.read_buf;
        };
        broker = none;
        hs = record l.session.hs { keep_alive = keep_alive };
        windows = l.session.windows;
        subscriptions = l.session.subscriptions;
        buffer = l.session.buffer;
        broker_leftover = broker_bytes broker;
      } in
      (
        s,
        adopt_session-session_snapshot lib l.session.client stream broker
            (record l.session.hs { keep_alive = keep_alive }) l.session.windows
            l.session.subscriptions l.session.buffer v.windows_ok v.buffer_ok.counted restored,
        forward_loop-IsLive lib laws id fd ver events (begin s now) o (record {
          speaks = v.speaks;
          windows_ok = v.windows_ok;
          buffer_ok = v.buffer_ok;
          table_ok = v.table_ok;
        }),
      )
