-- ===== src/Tests/Windows.antt =====
-- Tests of src/window.rs: a PUBLISH in each direction, and the properties of the windows on them.
use traffic_director.Window.Exchange.{qos2_upstream}
use traffic_director.Window.Snapshot.{from_snapshot-snapshot}
use traffic_director.Tests.Toy.{toy}
use traffic_director.Window.Signals.{phase, client_c2b, broker_c2b, signal, client_b2c, broker_b2c}
use traffic_director.Window.Phases.{track_c2b-Phases, track_b2c-Phases}
use traffic_director.Window.Invariant.{IsValid}
use traffic_director.Window.Retransmit.{
  ResentToBroker, ResentToClient, broker_retransmits_lem, client_retransmits_lem,
}
use traffic_director.Window.Vec.{
  c2b_publish_sent, c2b_pubrel_sent, b2c_publish_sent, b2c_pubrec_forwarded, vec_contains,
  vec_insert,
}
use traffic_director.Window.{
  InflightWindows, track_c2b, track_b2c, from_snapshot, broker_retransmits, client_retransmits,
  encode_raw, snapshot,
}
use traffic_director.Codec.{exactly_once, Publish, PacketV3, MqttPacket, v3}
use traffic_director.Prelude.{Bytes, ◌≡◌, false, some, List, [], ◌∷◌, arith}
use traffic_director.Result.{ok, ◌>>=◌}
use mathlib.Core.Path.{refl}

abbrev publish_seven : Publish
publish_seven = record { qos = exactly_once; packet_id = some 7; rest = 1 ∷ 2 ∷ [] }

abbrev publish_packet : MqttPacket
publish_packet = v3 (PacketV3.publish publish_seven)

abbrev pubrel_packet : MqttPacket
pubrel_packet = v3 (PacketV3.publish_release 7)

abbrev pubrec_packet : MqttPacket
pubrec_packet = v3 (PacketV3.publish_received 7)

abbrev pubcomp_packet : MqttPacket
pubcomp_packet = v3 (PacketV3.publish_complete 7)

-- One slot in each state.
abbrev busy : InflightWindows
busy = record {
  c2b = (3, (c2b_publish_sent, 50 ∷ 3 ∷ [])) ∷ (4, (c2b_pubrel_sent, 98 ∷ 4 ∷ [])) ∷ [];
  b2c = (5, (b2c_publish_sent, 52 ∷ 5 ∷ [])) ∷ (6, (b2c_pubrec_forwarded, 52 ∷ 6 ∷ [])) ∷ [];
}

busy-IsValid : IsValid busy
unfolding vec_contains
busy-IsValid = record {
  c2b_distinct = ground arith;
  b2c_distinct = ground arith;
  c2b_states = ((omega arith, refl), ((omega arith, refl), tt));
  b2c_states = ((omega arith, refl), ((omega arith, refl), tt));
}

abbrev published : InflightWindows
published = record busy {
  c2b =
      (3, (c2b_publish_sent, 50 ∷ 3 ∷ []))
      ∷ (4, (c2b_pubrel_sent, 98 ∷ 4 ∷ []))
      ∷ (7, (c2b_publish_sent, 52 ∷ 7 ∷ 1 ∷ 2 ∷ []))
      ∷ [];
}

abbrev delivered : InflightWindows
delivered = record busy {
  b2c =
      (5, (b2c_publish_sent, 52 ∷ 5 ∷ []))
      ∷ (6, (b2c_pubrec_forwarded, 52 ∷ 6 ∷ []))
      ∷ (7, (b2c_publish_sent, 52 ∷ 7 ∷ 1 ∷ 2 ∷ []))
      ∷ [];
}

track_c2b_run : track_c2b toy busy publish_packet ≡ ok published
unfolding track_c2b vec_insert encode_raw
track_c2b_run = refl

track_b2c_run : track_b2c toy busy publish_packet ≡ ok delivered
unfolding track_b2c vec_insert encode_raw
track_b2c_run = refl

from_snapshot-snapshot_example : from_snapshot (snapshot busy) ≡ busy
from_snapshot-snapshot_example = from_snapshot-snapshot busy busy-IsValid

broker_retransmits_lem_example :
    (out : List Bytes) × (broker_retransmits busy ≡ ok out) × ResentToBroker busy.c2b out
broker_retransmits_lem_example = broker_retransmits_lem busy busy-IsValid

client_retransmits_lem_example :
    (out : List Bytes) × (client_retransmits busy ≡ ok out) × ResentToClient busy.b2c out
client_retransmits_lem_example = client_retransmits_lem busy busy-IsValid

track_c2b-Phases_example :
    (phase published.c2b 7 ≡ client_c2b (signal publish_packet) 7 (phase busy.c2b 7))
    × (phase published.b2c 7 ≡ client_b2c (signal publish_packet) 7 (phase busy.b2c 7))
track_c2b-Phases_example = track_c2b-Phases toy busy publish_packet track_c2b_run 7

track_b2c-Phases_example :
    (phase delivered.c2b 7 ≡ broker_c2b (signal publish_packet) 7 (phase busy.c2b 7))
    × (phase delivered.b2c 7 ≡ broker_b2c (signal publish_packet) 7 (phase busy.b2c 7))
track_b2c-Phases_example = track_b2c-Phases toy busy publish_packet track_b2c_run 7

encoded_publish : encode_raw toy publish_packet ≡ ok (52 ∷ 7 ∷ 1 ∷ 2 ∷ [])
unfolding encode_raw
encoded_publish = refl

encoded_pubrel : encode_raw toy pubrel_packet ≡ ok (98 ∷ 7 ∷ [])
unfolding encode_raw
encoded_pubrel = refl

free_upstream : vec_contains busy.c2b 7 ≡ false
unfolding vec_contains
free_upstream = refl

free_downstream : vec_contains busy.b2c 7 ≡ false
unfolding vec_contains
free_downstream = refl

qos2_upstream_example :
    (do
      w₁ ← track_c2b toy busy publish_packet
      w₂ ← track_b2c toy w₁ pubrec_packet
      w₃ ← track_c2b toy w₂ pubrel_packet
      track_b2c toy w₃ pubcomp_packet)
    ≡ ok busy
qos2_upstream_example =
    qos2_upstream toy busy 7 publish_packet pubrec_packet pubrel_packet pubcomp_packet refl refl
      refl refl encoded_publish encoded_pubrel free_upstream
