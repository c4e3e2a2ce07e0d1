-- ===== src/Session/Freeze/Migration.antt =====
-- `handle_freeze` and `adopt_session` of src/session/forward.rs: a freeze that is rolled back, and a
-- session that is adopted.
use traffic_director.Window.Snapshot.{from_snapshot-snapshot}
use traffic_director.Session.{codec_for}
use traffic_director.Session.Outage.Buffer.{total}
use traffic_director.Session.Handshake.{Handshake, from_snapshot_version, version_byte}
use traffic_director.Session.Subscriptions.{Subscriptions}
use traffic_director.Session.Freeze.{
  Answer, refused, resumed, handed_over, resume, exit, handle_freeze, buffered_bytes, adopt_session,
  session_snapshot, broker_bytes,
}
use traffic_director.Session.Outage.{OutageBuffer}
use traffic_director.Session.Conn.{Conn}
use traffic_director.Window.Invariant.{IsValid}
use traffic_director.Registry.{BufferedPublish, SessionSnapshot}
use traffic_director.Window.{InflightWindows}
use traffic_director.Codec.{CodecLib}
use traffic_director.Result.{ok}
use traffic_director.Prelude.{refl, ℕ, ◌≡◌, sym, ◌∙◌, Option, none, some, List, [], ◌∷◌, arith}

module _ {C : Type 0} where
  -- If the coordinator gives up before it has the frozen session, or sends it back as it was
  -- frozen, the session goes on with both connections exactly as they were before the freeze,
  -- whether or not there was a broker connection; if the session has been handed over, it ends.
  pub handle_freeze-restores :
      (id fd : ℕ) (client : Conn C) (broker : Option (Conn C)) (hs : Handshake)
      (windows : InflightWindows) (subscriptions : Subscriptions) (buffer : OutageBuffer)
      → let s : SessionSnapshot = session_snapshot client broker hs windows subscriptions buffer in
        let sent_back : Answer = resumed (record { id = id; snapshot = s; client_fd = fd }) in
        (handle_freeze refused id fd client broker hs windows subscriptions buffer
          ≡ resume client broker)
        × (handle_freeze sent_back id fd client broker hs windows subscriptions buffer
            ≡ resume client broker)
        × (handle_freeze handed_over id fd client broker hs windows subscriptions buffer ≡ exit)
  unfolding handle_freeze session_snapshot
  handle_freeze-restores id fd client none hs windows subscriptions buffer = (refl, refl, refl)
  handle_freeze-restores id fd client (some b) hs windows subscriptions buffer = (refl, refl, refl)

total-buffered_bytes : (entries : List BufferedPublish) → buffered_bytes entries ≡ total entries
unfolding buffered_bytes
total-buffered_bytes [] = refl
total-buffered_bytes (e ∷ entries) = omega (arith, total-buffered_bytes entries)

module _ {C : Type 0} (lib : CodecLib C) where
  -- A session whose windows are valid, whose buffer is correctly counted and whose handshake can
  -- be restored is adopted from its own snapshot with the same handshake, windows, subscription
  -- table and outage buffer; the client's connection has its unread bytes and the codec of the
  -- version, and the unread bytes of the broker connection, if there was one, are the leftover.
  pub adopt_session-session_snapshot :
      (client stream : Conn C) (broker : Option (Conn C)) (hs : Handshake)
      (windows : InflightWindows) (subscriptions : Subscriptions) (buffer : OutageBuffer)
      → IsValid windows
      → buffer.bytes ≡ total buffer.entries
      → from_snapshot_version lib (version_byte hs) hs.connect_raw ≡ ok hs
      → adopt_session lib
          (ok tt)
          (ok stream)
          (session_snapshot client broker hs windows subscriptions buffer)
        ≡ ok (record {
          client = record stream { codec = codec_for lib hs.version; read_buf = client.read_buf };
          broker = none;
          hs = hs;
          windows = windows;
          subscriptions = subscriptions;
          buffer = buffer;
          broker_leftover = broker_bytes broker;
        })
  unfolding adopt_session session_snapshot
  adopt_session-session_snapshot client stream broker hs windows subscriptions buffer v counted
        restored =
      let bytes : buffered_bytes buffer.entries ≡ buffer.bytes =
        total-buffered_bytes buffer.entries ∙ sym counted in
      rw (restored, from_snapshot-snapshot windows v, bytes)
