-- ===== src/Session/Handshake.antt =====
-- src/session/handshake.rs: the CONNECT of the client and the patch of its clean bit.
pub mod Patch
pub mod Restore
use traffic_director.Session.{codec_for}
use traffic_director.Session.Conn.{Conn, Next, after_next, next_packet, next_error, next_none}
use traffic_director.Codec.{
  ProtocolVersion, mqtt3, mqtt5, PacketV3, PacketV5, MqttPacket, v3, v5, version_packet, Decoded,
  frame, incomplete, undecodable, CodecLib,
}
use traffic_director.Prelude.{
  Bytes, ℕ, ◌+◌, ◌*◌, bit_and, [], ◌∷◌, ◌==◌, if◌then◌else◌, drop, get_elem?, set,
}
use traffic_director.Result.{invalid_data, unexpected_eof, Result, ok, err, panic, ◌>>=◌, ok_or}

-- The loop over the remaining-length varint: the index behind its last byte.
unfoldable pub skip_varint : Bytes → ℕ → Result ℕ
skip_varint [] i = err invalid_data
skip_varint (byte ∷ raw) i =
    let rest = skip_varint raw (i + 1) in if bit_and byte 0x80 == 0 then ok (i + 1) else rest

-- `*connect_raw.get(i).ok_or_else(invalid)?`
unfoldable pub byte_at : Bytes → ℕ → Result ℕ
byte_at raw i = ok_or (get_elem? raw i) invalid_data

unfoldable pub force_session_resumption : Bytes → Result Bytes
unfolding skip_varint byte_at
force_session_resumption connect_raw = do
  i ← skip_varint (drop 1 connect_raw) 1
  high ← byte_at connect_raw i
  low ← byte_at connect_raw (i + 1)
  let name_len = high * 256 + low
  flags ← byte_at connect_raw (i + 2 + name_len + 1)
  ok (set connect_raw (i + 2 + name_len + 1) (bit_and flags 0xfd))

pub record Handshake : Type 0 where
  pub version : ProtocolVersion
  pub connect_raw : Bytes
  pub keep_alive : ℕ  -- u16

unfoldable pub keep_alive_of : MqttPacket → ℕ
keep_alive_of (v3 (PacketV3.connect c)) = c.keep_alive
keep_alive_of (v5 (PacketV5.connect c)) = c.keep_alive
keep_alive_of _ = 0

version_byte_of : ProtocolVersion → ℕ
version_byte_of mqtt3 = 4
version_byte_of mqtt5 = 5

unfoldable pub version_byte : Handshake → ℕ
unfolding version_byte_of
version_byte hs = version_byte_of hs.version

protocol_of : ℕ → Result ProtocolVersion
protocol_of version =
    if version == 4 then ok mqtt3 else if version == 5 then ok mqtt5 else err invalid_data

module _ {C : Type 0} (lib : CodecLib C) where
  -- `Ok(Some((_)))` of a decode; `Ok(None)` and `Err` both become `InvalidData`.
  decoded_packet : Decoded C → Result MqttPacket
  decoded_packet (frame p codec rest) = ok p
  decoded_packet (incomplete codec rest) = err invalid_data
  decoded_packet (undecodable codec rest) = err invalid_data

  unfoldable pub from_snapshot_version : ℕ → Bytes → Result Handshake
  unfolding protocol_of decoded_packet keep_alive_of codec_for
  from_snapshot_version level connect_raw = do
    version ← protocol_of level
    p ← decoded_packet (lib.decode (codec_for lib version) connect_raw)
    ok (record { version = version; connect_raw = connect_raw; keep_alive = keep_alive_of p })

  -- The first `client.next()`, with the `VersionCodec`.
  detected : Next C → Result ProtocolVersion
  detected (next_packet (version_packet v) codec buf) = ok v
  detected (next_packet _ codec buf) = panic
  detected (next_error codec buf) = err invalid_data
  detected (next_none codec buf) = err unexpected_eof

  -- The second `client.next()`.
  connected : Next C → Result MqttPacket
  connected (next_packet p codec buf) = ok p
  connected (next_error codec buf) = err invalid_data
  connected (next_none codec buf) = err unexpected_eof

  -- `first` and `second` are what the two calls of `next()` yield.
  unfoldable pub handshake : Conn C → Next C → Next C → Result (Conn C × Handshake)
  unfolding detected connected keep_alive_of codec_for
  handshake client first second = do
    version ← detected first
    connect ← connected second
    raw ← ok_or (lib.encode (codec_for lib version) connect) invalid_data
    let swapped = record (after_next client first) { codec = codec_for lib version }
    ok (
      after_next swapped second,
      record { version = version; connect_raw = raw; keep_alive = keep_alive_of connect },
    )
