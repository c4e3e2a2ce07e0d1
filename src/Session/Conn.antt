-- ===== src/Session/Conn.antt =====
-- `MqttFramed`, a framed TCP connection, as a session sees it. The transport is not part of the
-- repository: `room` is how many more writes it accepts before it fails for good, and what a read
-- yields is an argument of the code that reads.
use traffic_director.Codec.{MqttPacket, CodecLib}
use traffic_director.Prelude.{Bytes, ℕ, zero, suc, Option, none, some, List, [], ◌∷◌, ◌++◌}
use traffic_director.Result.{ok, err, invalid_data, transport, Result}

pub record Conn (C : Type 0) : Type 0 where
  pub codec : C
  pub read_buf : Bytes
  pub sent : List Bytes
  pub room : ℕ

-- What `next()` yields: `Some(Ok(p))`, `Some(Err(e))` or `None`, with the codec and the read
-- buffer that it leaves.
pub data Next (C : Type 0) : Type 0 where
  next_packet : MqttPacket → C → Bytes → Next C
  next_error : C → Bytes → Next C
  next_none : C → Bytes → Next C

module _ {C : Type 0} where
  abbrev pub polled : Conn C → C → Bytes → Conn C
  polled conn codec read_buf = record conn { codec = codec; read_buf = read_buf }

  abbrev pub after_next : Conn C → Next C → Conn C
  after_next conn (next_packet p codec read_buf) = polled conn codec read_buf
  after_next conn (next_error codec read_buf) = polled conn codec read_buf
  after_next conn (next_none codec read_buf) = polled conn codec read_buf

  unfoldable pub write_with : ℕ → Conn C → Bytes → Result (Unit {0}) × Conn C
  write_with zero conn raw = (err transport, conn)
  write_with (suc room) conn raw =
      (ok tt, record conn { sent = conn.sent ++ raw ∷ []; room = room })

  -- `get_mut().write_all(raw)`
  unfoldable pub write_all : Conn C → Bytes → Result (Unit {0}) × Conn C
  unfolding write_with
  write_all conn raw = write_with conn.room conn raw

  unfoldable pub send_encoded : Option Bytes → Conn C → Result (Unit {0}) × Conn C
  unfolding write_all
  send_encoded none conn = (err invalid_data, conn)
  send_encoded (some raw) conn = write_all conn raw

  -- `send(packet)`: encode, write and flush.
  unfoldable pub send : CodecLib C → Conn C → MqttPacket → Result (Unit {0}) × Conn C
  unfolding send_encoded
  send lib conn p = send_encoded (lib.encode conn.codec p) conn
