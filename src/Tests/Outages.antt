-- ===== src/Tests/Outages.antt =====
-- Tests of src/session/outage.rs: a PUBLISH that is held back.
use traffic_director.Session.Subscriptions.{track}
use traffic_director.Tests.Toy.{toy}
use traffic_director.Session.Subscriptions.Table.{lookup}
use traffic_director.Window.{new, encode_raw}
use traffic_director.Session.Outage.Service.{IsServed, service-holds}
use traffic_director.Session.Outage.{
  OutageBuffer, Served, outage_buffer_max_bytes, service_outage_packet,
}
use traffic_director.Window.Invariant.{new-IsValid}
use traffic_director.Codec.{at_least_once, mqtt3, PacketV3, MqttPacket, v3}
use traffic_director.Result.{quota_exceeded, ok, err}
use traffic_director.Prelude.{refl, ◌+◌, ◌≤◌, ◌<◌, ◌≡◌, inl, inr, some, [], ◌∷◌, ◌++◌, arith}

abbrev publish_seven : MqttPacket
publish_seven =
    v3 (PacketV3.publish (record { qos = at_least_once; packet_id = some 7; rest = 1 ∷ [] }))

abbrev held_before : OutageBuffer
held_before = record {
  entries = record { packet_id = 4; raw = 98 ∷ 4 ∷ []; qos = 2 } ∷ [];
  bytes = 2;
}

abbrev served : Served (Unit {0})
served = record {
  client = record { codec = tt; read_buf = []; sent = []; room = 8 };
  buffer = held_before;
  subscriptions = record { topic_filter = "a"; options = 1 } ∷ [];
  windows = new;
}

served-IsServed : IsServed toy mqtt3 served
unfolding lookup
served-IsServed = record {
  buffer_ok = record {
    counted = refl;
    bounded = omega arith;
    deferred = (inr (inl (omega arith, refl)), tt);
  };
  windows_ok = new-IsValid;
  subscriptions_ok = record { distinct = (refl, tt); options = ((at_least_once, refl), tt) };
}

encoded_publish : encode_raw toy publish_seven ≡ ok (50 ∷ 7 ∷ 1 ∷ [])
unfolding encode_raw
encoded_publish = refl

service-holds_example :
    (2 + 3 ≤ outage_buffer_max_bytes
      → service_outage_packet toy publish_seven served ≡ (
        ok tt,
        record served {
          subscriptions = track toy served.subscriptions publish_seven;
          buffer = record {
            entries =
                held_before.entries
                ++ record { packet_id = 7; raw = 50 ∷ 7 ∷ 1 ∷ []; qos = 1 } ∷ [];
            bytes = 5;
          };
        },
      ))
    × (outage_buffer_max_bytes < 2 + 3
        → service_outage_packet toy publish_seven served ≡ (
          err quota_exceeded,
          record served { subscriptions = track toy served.subscriptions publish_seven },
        ))
service-holds_example =
    service-holds toy served publish_seven (50 ∷ 7 ∷ 1 ∷ []) 7 at_least_once refl encoded_publish
