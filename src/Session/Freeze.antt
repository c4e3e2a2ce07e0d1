-- ===== src/Session/Freeze.antt =====
-- `handle_freeze` and `adopt_session` of src/session/forward.rs: a session stops at a packet
-- boundary, and goes on in the same process or in a new one.
pub mod Migration
use traffic_director.Session.{codec_for}
use traffic_director.Session.Handshake.{Handshake, version_byte, from_snapshot_version}
use traffic_director.Session.Subscriptions.{Subscriptions}
use traffic_director.Session.Outage.{OutageBuffer}
use traffic_director.Session.Conn.{Conn}
use traffic_director.Registry.{BufferedPublish, SessionSnapshot, FrozenSession}
use traffic_director.Window.{InflightWindows, snapshot, from_snapshot}
use traffic_director.Codec.{CodecLib}
use traffic_director.Prelude.{Bytes, ℕ, ◌+◌, Option, none, some, List, [], ◌∷◌, ◌++◌, length}
use traffic_director.Result.{Result, ok, ◌>>=◌}

-- What comes of the frozen session: the reply channel is closed and gives it back, the
-- coordinator sends one back, or the coordinator drops the resume channel after the handoff.
pub data Answer : Type 0 where
  refused : Answer
  resumed : FrozenSession → Answer
  handed_over : Answer

pub data FreezeOutcome (C : Type 0) : Type 0 where
  resume : Conn C → Option (Conn C) → FreezeOutcome C
  exit : FreezeOutcome C

-- `OutageStep::Connect` and `OutageStep::Backoff`
pub data OutageStep : Type 0 where
  connect_step : OutageStep
  backoff_step : ℕ → OutageStep

module _ {C : Type 0} where
  -- `read_buf.split()` leaves an empty buffer.
  abbrev pub split : Conn C → Conn C
  split conn = record conn { read_buf = [] }

  -- `read_buf.extend_from_slice(bytes)`
  abbrev pub extend : Conn C → Bytes → Conn C
  extend conn bytes = record conn { read_buf = conn.read_buf ++ bytes }

  abbrev pub broker_bytes : Option (Conn C) → Bytes
  broker_bytes none = []
  broker_bytes (some conn) = conn.read_buf

  -- The snapshot that the coordinator is sent.
  unfoldable pub session_snapshot :
      Conn C
      → Option (Conn C)
      → Handshake
      → InflightWindows
      → Subscriptions
      → OutageBuffer
      → SessionSnapshot
  session_snapshot client broker hs windows subscriptions buffer = record {
    version = version_byte hs;
    connect_raw = hs.connect_raw;
    client_buf = client.read_buf;
    broker_buf = broker_bytes broker;
    windows = snapshot windows;
    subscriptions = subscriptions;
    buffered = buffer.entries;
  }

  abbrev extend_broker : Option (Conn C) → Bytes → Option (Conn C)
  extend_broker none bytes = none
  extend_broker (some conn) bytes = some (extend (split conn) bytes)

  -- The end of `handle_freeze`, with the session that came back.
  abbrev restored : Conn C → Option (Conn C) → FrozenSession → FreezeOutcome C
  restored client broker frozen =
      resume (extend (split client) frozen.snapshot.client_buf)
        (extend_broker broker frozen.snapshot.broker_buf)

  abbrev answered : Conn C → Option (Conn C) → FrozenSession → Answer → FreezeOutcome C
  answered client broker frozen refused = restored client broker frozen
  answered client broker frozen (resumed returned) = restored client broker returned
  answered client broker frozen handed_over = exit

  -- `fd` is the client socket's descriptor.
  unfoldable pub handle_freeze :
      Answer
      → ℕ
      → ℕ
      → Conn C
      → Option (Conn C)
      → Handshake
      → InflightWindows
      → Subscriptions
      → OutageBuffer
      → FreezeOutcome C
  unfolding session_snapshot
  handle_freeze answer id fd client broker hs windows subscriptions buffer =
      let frozen : FrozenSession = record {
        id = id;
        snapshot = session_snapshot client broker hs windows subscriptions buffer;
        client_fd = fd;
      } in
      answered client broker frozen answer

-- What `forward_loop` is started with.
pub record Session (C : Type 0) : Type 0 where
  pub client : Conn C
  pub broker : Option (Conn C)
  pub hs : Handshake
  pub windows : InflightWindows
  pub subscriptions : Subscriptions
  pub buffer : OutageBuffer
  pub broker_leftover : Bytes

-- `snapshot.buffered.iter().map(|p| p.raw.len()).sum()`
unfoldable pub buffered_bytes : List BufferedPublish → ℕ
buffered_bytes [] = 0
buffered_bytes (p ∷ buffered) = length p.raw + buffered_bytes buffered

-- `adopt_session` up to `forward_loop`. `nonblocking` is the result of `set_nonblocking`, and
-- `stream` that of `from_std`: the client's connection, as the socket with the descriptor has it.
unfoldable pub adopt_session :
    {C : Type 0}
    → CodecLib C
    → Result (Unit {0})
    → Result (Conn C)
    → SessionSnapshot
    → Result (Session C)
unfolding buffered_bytes
adopt_session lib nonblocking stream s = do
  hs ← from_snapshot_version lib s.version s.connect_raw
  ready ← nonblocking
  client_stream ← stream
  ok (record {
    client = record client_stream { codec = codec_for lib hs.version; read_buf = s.client_buf };
    broker = none;
    hs = hs;
    windows = from_snapshot s.windows;
    subscriptions = s.subscriptions;
    buffer = record { entries = s.buffered; bytes = buffered_bytes s.buffered };
    broker_leftover = s.broker_buf;
  })
