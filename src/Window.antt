-- ===== src/Window.antt =====
-- src/window.rs: the in-flight windows, the packets of QoS 1 and 2 that were forwarded and are
-- not yet acknowledged end to end. `none` of the source's `expect`s is dropped: they are `panic`.
pub mod Vec
pub mod Frames
mod Cases
pub mod Invariant
pub mod Signals
pub mod Phases
pub mod InFlight
pub mod Retransmit
pub mod Snapshot
pub mod Exchange
use traffic_director.Prelude.{
  ℕ, Bool, true, false, ◌&&◌, Option, List, [], ◌∷◌, ◌++◌, bit_or, Bytes, if◌then◌else◌,
}
use traffic_director.Result.{Result, ok, panic, ◌>>=◌, expect}
use traffic_director.Codec.{
  QoS, at_most_once, PacketV3, PacketV5, MqttPacket, v3, v5, version_packet, CodecLib,
}
use Vec.{
  WindowState, c2b_publish_sent, c2b_pubrel_sent, b2c_publish_sent, b2c_pubrec_forwarded, Slots,
  vec_insert, vec_remove, vec_contains, vec_set_state,
}

pub record WindowEntry : Type 0 where
  pub packet_id : ℕ
  pub state : WindowState
  pub raw : Bytes

abbrev pub dup_flag : ℕ
dup_flag = 0x08

pub record InflightWindows : Type 0 where
  pub c2b : Slots
  pub b2c : Slots

-- `InflightWindows::new`
abbrev pub new : InflightWindows
new = record { c2b = []; b2c = [] }

abbrev pub is_at_most_once : QoS → Bool
is_at_most_once at_most_once = true
is_at_most_once _ = false

b2c_transition : InflightWindows → ℕ → WindowState → InflightWindows
b2c_transition w packet_id state = record w { b2c = vec_set_state w.b2c packet_id state }

c2b_remove : InflightWindows → ℕ → InflightWindows
c2b_remove w id = record w { c2b = vec_remove w.c2b id }

b2c_remove : InflightWindows → ℕ → InflightWindows
b2c_remove w id = record w { b2c = vec_remove w.b2c id }

module _ {C : Type 0} (lib : CodecLib C) where
  unfoldable pub encode_raw : MqttPacket → Result Bytes
  encode_raw (v3 p) = expect (lib.encode (lib.v3_codec 1048576) (v3 p))
  encode_raw (v5 p) = expect (lib.encode (lib.v5_codec 1048576 1048576) (v5 p))
  encode_raw (version_packet v) = panic

  pub c2b_insert : InflightWindows → QoS → Option ℕ → MqttPacket → Result InflightWindows
  c2b_insert w qos packet_id packet = if is_at_most_once qos then ok w else (do
    id ← expect packet_id
    raw ← encode_raw packet
    ok (record w { c2b = vec_insert w.c2b id (c2b_publish_sent, raw) }))

  pub b2c_insert : InflightWindows → QoS → Option ℕ → MqttPacket → Result InflightWindows
  b2c_insert w qos packet_id packet = if is_at_most_once qos then ok w else (do
    id ← expect packet_id
    raw ← encode_raw packet
    ok (record w { b2c = vec_insert w.b2c id (b2c_publish_sent, raw) }))

  pub c2b_transition : InflightWindows → ℕ → WindowState → MqttPacket → Result InflightWindows
  c2b_transition w packet_id state packet =
      if vec_contains w.c2b packet_id
      then (do
        raw ← encode_raw packet
        ok (record w { c2b = vec_insert w.c2b packet_id (state, raw) }))
      else ok w

  unfoldable pub track_c2b : InflightWindows → MqttPacket → Result InflightWindows
  unfolding c2b_insert c2b_transition b2c_transition b2c_remove
  track_c2b w (v3 (PacketV3.publish p)) = c2b_insert w p.qos p.packet_id (v3 (PacketV3.publish p))
  track_c2b w (v3 (PacketV3.publish_release id)) =
      c2b_transition w id c2b_pubrel_sent (v3 (PacketV3.publish_release id))
  track_c2b w (v3 (PacketV3.publish_ack id)) = ok (b2c_remove w id)
  track_c2b w (v3 (PacketV3.publish_received id)) = ok (b2c_transition w id b2c_pubrec_forwarded)
  track_c2b w (v3 (PacketV3.publish_complete id)) = ok (b2c_remove w id)
  track_c2b w (v5 (PacketV5.publish p)) = c2b_insert w p.qos p.packet_id (v5 (PacketV5.publish p))
  track_c2b w (v5 (PacketV5.publish_release ack)) =
      c2b_transition w ack.packet_id c2b_pubrel_sent (v5 (PacketV5.publish_release ack))
  track_c2b w (v5 (PacketV5.publish_ack ack)) = ok (b2c_remove w ack.packet_id)
  track_c2b w (v5 (PacketV5.publish_received ack)) =
      ok (b2c_transition w ack.packet_id b2c_pubrec_forwarded)
  track_c2b w (v5 (PacketV5.publish_complete ack)) = ok (b2c_remove w ack.packet_id)
  track_c2b w _ = ok w

  unfoldable pub track_b2c : InflightWindows → MqttPacket → Result InflightWindows
  unfolding b2c_insert c2b_remove
  track_b2c w (v3 (PacketV3.publish p)) = b2c_insert w p.qos p.packet_id (v3 (PacketV3.publish p))
  track_b2c w (v3 (PacketV3.publish_ack id)) = ok (c2b_remove w id)
  track_b2c w (v3 (PacketV3.publish_complete id)) = ok (c2b_remove w id)
  track_b2c w (v5 (PacketV5.publish p)) = b2c_insert w p.qos p.packet_id (v5 (PacketV5.publish p))
  track_b2c w (v5 (PacketV5.publish_ack ack)) = ok (c2b_remove w ack.packet_id)
  track_b2c w (v5 (PacketV5.publish_complete ack)) = ok (c2b_remove w ack.packet_id)
  track_b2c w _ = ok w

unfoldable pub insert_c2b_raw : InflightWindows → ℕ → WindowState → Bytes → InflightWindows
insert_c2b_raw w packet_id state raw = record w { c2b = vec_insert w.c2b packet_id (state, raw) }

-- `raw[0] |= DUP_FLAG` on an empty buffer panics.
unfoldable pub with_dup : Bytes → Result Bytes
with_dup [] = panic
with_dup (b ∷ raw) = ok (bit_or b dup_flag ∷ raw)

-- The two closures of the retransmit lists; the wildcard arms are `unreachable!`.
broker_retransmit : WindowState → Bytes → Result (List Bytes)
unfolding with_dup
broker_retransmit c2b_publish_sent raw = do again ← with_dup raw; ok (again ∷ [])
broker_retransmit c2b_pubrel_sent raw = ok (raw ∷ [])
broker_retransmit _ raw = panic

client_retransmit : WindowState → Bytes → Result (List Bytes)
unfolding with_dup
client_retransmit b2c_publish_sent raw = do again ← with_dup raw; ok (again ∷ [])
client_retransmit b2c_pubrec_forwarded raw = ok []
client_retransmit _ raw = panic

-- `iter().filter_map(f).collect()`, where `f` yields at most one element.
unfoldable pub collect : (WindowState → Bytes → Result (List Bytes)) → Slots → Result (List Bytes)
collect f [] = ok []
collect f ((id, (state, raw)) ∷ v) = do again ← f state raw; rest ← collect f v; ok (again ++ rest)

unfoldable pub broker_retransmits : InflightWindows → Result (List Bytes)
unfolding broker_retransmit
broker_retransmits w = collect broker_retransmit w.c2b

unfoldable pub client_retransmits : InflightWindows → Result (List Bytes)
unfolding client_retransmit
client_retransmits w = collect client_retransmit w.b2c

abbrev is_nil : Slots → Bool
is_nil [] = true
is_nil (x ∷ v) = false

unfoldable pub is_empty : InflightWindows → Bool
is_empty w = is_nil w.c2b && is_nil w.b2c

-- The loop over one window of `snapshot`.
entries_of : Slots → List WindowEntry
entries_of [] = []
entries_of ((id, (state, raw)) ∷ v) =
    record { packet_id = id; state = state; raw = raw } ∷ entries_of v

unfoldable pub snapshot : InflightWindows → List WindowEntry
unfolding entries_of
snapshot w = entries_of w.c2b ++ entries_of w.b2c

-- One turn of the loop of `from_snapshot`: the state picks the window.
restore_entry : InflightWindows → WindowState → ℕ → Bytes → InflightWindows
restore_entry w c2b_publish_sent id raw = record w {
  c2b = vec_insert w.c2b id (c2b_publish_sent, raw);
}
restore_entry w c2b_pubrel_sent id raw = record w {
  c2b = vec_insert w.c2b id (c2b_pubrel_sent, raw);
}
restore_entry w b2c_publish_sent id raw = record w {
  b2c = vec_insert w.b2c id (b2c_publish_sent, raw);
}
restore_entry w b2c_pubrec_forwarded id raw = record w {
  b2c = vec_insert w.b2c id (b2c_pubrec_forwarded, raw);
}

restore : InflightWindows → List WindowEntry → InflightWindows
unfolding restore_entry
restore w [] = w
restore w (e ∷ entries) = restore (restore_entry w e.state e.packet_id e.raw) entries

unfoldable pub from_snapshot : List WindowEntry → InflightWindows
unfolding restore
from_snapshot entries = restore new entries
