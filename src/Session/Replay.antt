-- ===== src/Session/Replay.antt =====
-- `establish_broker` of src/session/forward.rs: the replay of a session onto a fresh broker
-- connection. What the two calls of `broker.next()` yield are arguments.
pub mod Writes
pub mod Leftover
pub mod Flush
pub mod Answers
pub mod Deferred
pub mod Order
pub mod Ends
pub mod Done
pub mod Windows
pub mod Rewrites
use traffic_director.Session.{codec_for}
use traffic_director.Session.Outage.{OutageBuffer}
use traffic_director.Window.Vec.{c2b_publish_sent, c2b_pubrel_sent}
use traffic_director.Registry.{BufferedPublish}
use traffic_director.Codec.{
  ProtocolVersion, PacketV3, PacketV5, MqttPacket, v3, v5, frame, incomplete, undecodable, CodecLib,
}
use traffic_director.Prelude.{
  Bytes, ℕ, zero, suc, ◌/◌, Option, none, some, List, [], ◌∷◌, ◌==◌, if◌then◌else◌, length,
}
use traffic_director.Exec.{Exec, pure, raise, lift, gets, modify, map_err, ◌>>=◌, ◌>>◌}
use traffic_director.Result.{Result, ok, panic, invalid_data, connection_aborted, out_of_fuel}
use traffic_director.Session.Handshake.{force_session_resumption}
use traffic_director.Session.Subscriptions.{resubscribe_packet, Subscriptions}
use traffic_director.Session.Conn.{
  write_all, send, after_next, Conn, Next, next_packet, next_error, next_none,
}
use traffic_director.Window.{
  insert_c2b_raw, broker_retransmits, client_retransmits, InflightWindows,
}

-- What `establish_broker` borrows mutably.
pub record Link (C : Type 0) : Type 0 where
  pub broker : Conn C
  pub client : Conn C
  pub windows : InflightWindows
  pub buffer : OutageBuffer
  pub broker_leftover : Bytes
  pub keep_alive : ℕ

-- `entry.raw[0] >> 4`
abbrev pub packet_kind : Bytes → Result ℕ
packet_kind [] = panic
packet_kind (b ∷ raw) = ok (b / 16)

-- The `match` on the kind of a flushed entry.
unfoldable pub track_flushed : InflightWindows → ℕ → ℕ → Bytes → InflightWindows
track_flushed w kind packet_id raw =
    if kind == 3
    then insert_c2b_raw w packet_id c2b_publish_sent raw
    else if kind == 6
    then insert_c2b_raw w packet_id c2b_pubrel_sent raw
    else w

module _ {C : Type 0} where
  -- `broker.get_mut().write_all(raw).await?`
  pub broker_write : Bytes → Exec (Link C) (Unit {0})
  broker_write raw l = let (r, broker) = write_all l.broker raw in (r, record l { broker = broker })

  pub client_write : Bytes → Exec (Link C) (Unit {0})
  client_write raw l = let (r, client) = write_all l.client raw in (r, record l { client = client })

  pub broker_write_each : List Bytes → Exec (Link C) (Unit {0})
  broker_write_each [] = pure tt
  broker_write_each (raw ∷ raws) = do broker_write raw; broker_write_each raws

  pub client_write_each : List Bytes → Exec (Link C) (Unit {0})
  client_write_each [] = pure tt
  client_write_each (raw ∷ raws) = do client_write raw; client_write_each raws

  pub broker_next : Next C → Exec (Link C) (Unit {0})
  broker_next n = modify (λ l. record l { broker = after_next l.broker n })

  pub assign_keep_alive : Option ℕ → Exec (Link C) (Unit {0})
  assign_keep_alive none = pure tt
  assign_keep_alive (some secs) = modify (λ l. record l { keep_alive = secs })

  -- The answer to the replayed CONNECT.
  pub on_connack : Next C → Exec (Link C) (Unit {0})
  unfolding assign_keep_alive
  on_connack (next_packet (v3 (PacketV3.connect_ack a)) codec buf) = pure tt
  on_connack (next_packet (v5 (PacketV5.connect_ack ack)) codec buf) =
      assign_keep_alive ack.server_keepalive_sec
  on_connack (next_packet _ codec buf) = raise invalid_data
  on_connack (next_error codec buf) = raise invalid_data
  on_connack (next_none codec buf) = raise connection_aborted

  -- The answer to the re-SUBSCRIBE: a packet other than SUBACK is logged and passed over.
  pub on_suback : Next C → Exec (Link C) (Unit {0})
  on_suback (next_packet p codec buf) = pure tt
  on_suback (next_error codec buf) = raise invalid_data
  on_suback (next_none codec buf) = raise connection_aborted

  pub flush_entries : List BufferedPublish → Exec (Link C) (Unit {0})
  unfolding track_flushed broker_write
  flush_entries [] = pure tt
  flush_entries (e ∷ entries) = do
    kind ← lift (packet_kind e.raw)
    modify (λ l. record l { windows = track_flushed l.windows kind e.packet_id e.raw })
    broker_write e.raw
    flush_entries entries

  -- `buffer.entries.drain(..)` and its loop, then `buffer.bytes = 0`.
  pub flush_buffer : Exec (Link C) (Unit {0})
  unfolding flush_entries
  flush_buffer = do
    entries ← gets (λ l. l.buffer.entries)
    modify (λ l. record l { buffer = record l.buffer { entries = [] } })
    flush_entries entries
    modify (λ l. record l { buffer = record l.buffer { bytes = 0 } })

  pub retransmit : Exec (Link C) (Unit {0})
  unfolding broker_write_each client_write_each broker_write client_write
  retransmit = do
    to_broker ← (λ l. (broker_retransmits l.windows, l))
    broker_write_each to_broker
    to_client ← (λ l. (client_retransmits l.windows, l))
    client_write_each to_client

module _ {C : Type 0} (lib : CodecLib C) where
  pub broker_send : MqttPacket → Exec (Link C) (Unit {0})
  broker_send p l =
      let (r, broker) = send lib l.broker p in
      (map_err r invalid_data, record l { broker = broker })

  pub client_send : MqttPacket → Exec (Link C) (Unit {0})
  client_send p l =
      let (r, client) = send lib l.client p in
      (map_err r invalid_data, record l { client = client })

  pub resubscribe_with : Option MqttPacket → Next C → Exec (Link C) (Unit {0})
  unfolding broker_send broker_next on_suback
  resubscribe_with none suback = pure tt
  resubscribe_with (some p) suback = do broker_send p; broker_next suback; on_suback suback

  -- The loop over the leftover bytes, with a fresh codec. A frame goes to the client; the loop
  -- ends when the rest is no whole frame or cannot be decoded.
  pub deliver : ℕ → C → Exec (Link C) (Unit {0})
  unfolding client_send
  deliver zero codec l = (out_of_fuel, l)
  deliver (suc fuel) codec l = elim (lib.decode codec l.broker_leftover) [
    | frame p codec' rest ↦
        (◌>>=◌ (client_send p) (λ _. deliver fuel codec')) (record l { broker_leftover = rest })
    | incomplete codec' rest ↦ (ok tt, record l { broker_leftover = rest })
    | undecodable codec' rest ↦ (ok tt, record l { broker_leftover = rest })
  ]

  -- The block that delivers the leftover; a byte more of fuel than the buffer has bytes.
  pub deliver_leftover : ProtocolVersion → Exec (Link C) (Unit {0})
  unfolding deliver codec_for
  deliver_leftover version = do
    leftover ← gets (λ l. l.broker_leftover)
    deliver (suc (length leftover)) (codec_for lib version)
    modify (λ l. record l { broker_leftover = [] })

  unfoldable pub establish_broker :
      ProtocolVersion → Bytes → Subscriptions → Next C → Next C → Exec (Link C) (Unit {0})
  unfolding resubscribe_with deliver_leftover retransmit flush_buffer on_connack broker_next
      broker_write
  establish_broker version connect_raw subscriptions connack suback = do
    patched ← lift (force_session_resumption connect_raw)
    broker_write patched
    broker_next connack
    on_connack connack
    resubscribe_with (resubscribe_packet lib subscriptions version) suback
    deliver_leftover version
    retransmit
    flush_buffer
