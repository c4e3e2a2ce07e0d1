-- ===== src/Server/Boot/Carried.antt =====
-- A migration from end to end: what a parent has frozen in src/session/forward.rs, sent by
-- src/migrate.rs, and what the child that starts in src/server.rs goes on with.
use traffic_director.Migrate.Send.{send_sessions}
use traffic_director.Session.Handshake.{from_snapshot_version, version_byte}
use traffic_director.Server.{migrate_mode}
use traffic_director.Migrate.{Json, IsJson, Datagram, Round, Handoff}
use traffic_director.Server.Boot.{boot, child_channel, parent_channel, adopt_each, Boot}
use traffic_director.Session.{codec_for}
use traffic_director.Session.Outage.Buffer.{total}
use traffic_director.Session.Freeze.{Session, session_snapshot, broker_bytes}
use traffic_director.Session.Conn.{Conn}
use traffic_director.Window.Invariant.{IsValid}
use traffic_director.Registry.{FrozenSession}
use traffic_director.Codec.{CodecLib}
use traffic_director.Prelude.{ℕ, ◌≡◌, refl, ap, none, List, [], ◌∷◌, All, Bytes, true, some, length}
use traffic_director.Result.{Result, ok}
use traffic_director.Session.Freeze.Migration.{adopt_session-session_snapshot}
use traffic_director.Migrate.Handover.{owned, Payloads, Acked, arrived, recv_sessions-send_sessions}

-- A session as its loop in the parent has it at the freeze, with its identifier in the registry, its
-- client's descriptor and the keepalive of its CONNECT; one that the broker has assigned is not in
-- the snapshot.
pub record Leaving (C : Type 0) : Type 0 where
  pub id : ℕ
  pub fd : ℕ
  pub keep_alive : ℕ
  pub session : Session C

-- A child that has inherited its end of the channel, and whose calls succeed.
abbrev pub started : List (Result Datagram) → Boot
started arriving = record {
  listen_tcp = ok tt;
  set_nonblocking = ok tt;
  from_std = ok tt;
  to_child = ok tt;
  to_child_options = λ option secs. ok tt;
  is_child = true;
  ready = ok tt;
  from_parent =
      some (record { options = λ option secs. ok tt; arriving = arriving; acks = λ i. ok tt });
  on_usr2 = ok tt;
  on_term = ok tt;
  on_int = ok tt;
}

module _ {C : Type 0} (lib : CodecLib C) where
  -- Windows, buffer and handshake can be read back.
  pub record CanLeave (l : Leaving C) : Type 0 where
    pub windows_ok : IsValid l.session.windows
    pub counted : l.session.buffer.bytes ≡ total l.session.buffer.entries
    pub restored :
        from_snapshot_version lib (version_byte l.session.hs) l.session.hs.connect_raw
        ≡ ok (record l.session.hs { keep_alive = l.keep_alive })

  -- The session in the child, on the socket that it finds under its descriptor. The leftover of a
  -- session that is frozen in an outage is not carried.
  abbrev pub carried : Conn C → Leaving C → Session C
  carried stream l =
      let s : Session C = l.session in
      record s {
        client = record stream { codec = codec_for lib s.hs.version; read_buf = s.client.read_buf };
        broker = none;
        hs = record s.hs { keep_alive = l.keep_alive };
        broker_leftover = broker_bytes s.broker;
      }

  -- What the loop gives the coordinator.
  abbrev pub frozen : List (Leaving C) → List FrozenSession
  frozen [] = []
  frozen (l ∷ leaving) =
      record {
        id = l.id;
        snapshot =
            session_snapshot l.session.client l.session.broker l.session.hs l.session.windows
              l.session.subscriptions l.session.buffer;
        client_fd = l.fd;
      }
      ∷ frozen leaving

  -- The sessions in the child, each on the duplicate of its own client's descriptor.
  abbrev pub all_carried : (ℕ → ℕ) → (ℕ → Conn C) → List (Leaving C) → List (Result (Session C))
  all_carried dup stream [] = []
  all_carried dup stream (l ∷ leaving) =
      ok (carried (stream (dup l.fd)) l) ∷ all_carried dup stream leaving

  adopt_each-owned :
      (dup : ℕ → ℕ) (stream : ℕ → Conn C) (leaving : List (Leaving C))
      → All CanLeave leaving
      → adopt_each lib
          (record { nonblocking = λ fd. ok tt; stream = λ fd. ok (stream fd) })
          (owned dup (frozen leaving))
        ≡ all_carried dup stream leaving
  unfolding session_snapshot version_byte
  adopt_each-owned dup stream [] h = refl
  adopt_each-owned dup stream (l ∷ leaving) h =
      let s : Session C = l.session in
      rw
        (adopt_session-session_snapshot lib s.client (stream (dup l.fd)) s.broker
          (record s.hs { keep_alive = l.keep_alive }) s.windows s.subscriptions s.buffer
          h.0.windows_ok h.0.counted h.0.restored)
        (ap (◌∷◌ (ok (carried (stream (dup l.fd)) l))) (adopt_each-owned dup stream leaving h.1))

  module _ (json : Json) (laws : IsJson json) where
    -- If every session of the parent can be read back, every snapshot can be written as text that fits
    -- the receiver's buffer, and no call fails, then the parent's handover succeeds and has counted
    -- every session, and the child, started in migrate mode with its end of the channel, goes on with
    -- exactly these sessions, in their order, each on the duplicate of its own client's descriptor:
    -- with its windows, its subscription table, its outage buffer, its CONNECT and version, the
    -- client's bytes that were not decoded yet, no broker connection, and the keepalive of its
    -- CONNECT. Its leftover is the undecoded bytes of the broker connection that the session had at the
    -- freeze, and nothing if it was frozen in an outage: a leftover that it then still had is lost.
    pub boot-send_sessions :
        (leaving : List (Leaving C)) (raws : List Bytes) (rounds : ℕ → Round) (dup : ℕ → ℕ)
        (stream : ℕ → Conn C)
        → All CanLeave leaving
        → Payloads json (frozen leaving) raws
        → Acked rounds
        → (p : Handoff) × (send_sessions json (frozen leaving) rounds (ok tt) ≡ (ok tt, p))
          × (p.sent ≡ length (frozen leaving))
          × (boot lib
                (record { nonblocking = λ fd. ok tt; stream = λ fd. ok (stream fd) })
                json
                migrate_mode
                (started (arrived dup p.out))
              ≡ ok (all_carried dup stream leaving))
    unfolding boot child_channel parent_channel
    boot-send_sessions leaving raws rounds dup stream can e a =
        let (p, sent, counted, received) =
          recv_sessions-send_sessions json laws (frozen leaving) raws rounds dup (λ i. ok tt) e a
            (λ i. refl) in
        (p, sent, counted, rw received (ap ok (adopt_each-owned dup stream leaving can)))
