-- ===== src/Tests/Tables.antt =====
-- Tests of src/session/subscriptions.rs, handshake.rs and keepalive.rs.
use traffic_director.Session.Handshake.Restore.{from_snapshot_version-handshake}
use traffic_director.Session.Subscriptions.Resubscribe.{resubscribe_packet-restores}
use traffic_director.Session.Handshake.Patch.{before_flags, force_session_resumption_lem}
use traffic_director.Session.Keepalive.{
  client_deadline, from_secs, from_millis, client_deadline_bounds,
}
use traffic_director.Tests.Toy.{toy, connects, toy_numbers, connects_decodes}
use traffic_director.Session.Subscriptions.Table.{lookup, granted, request, lookup-track}
use traffic_director.Session.Subscriptions.Shape.{IsRestorable}
use traffic_director.Session.Handshake.{
  Handshake, force_session_resumption, handshake, from_snapshot_version, version_byte,
}
use traffic_director.Session.Subscriptions.{Subscriptions, resubscribe_packet, track}
use traffic_director.Session.Conn.{Conn, Next, next_packet}
use traffic_director.Codec.{
  at_most_once, at_least_once, exactly_once, mqtt3, PacketV3, MqttPacket, v3, version_packet,
}
use traffic_director.Result.{ok}
use traffic_director.Prelude.{
  refl, Bytes, ℕ, ◌+◌, ◌-◌, ◌*◌, ◌/◌, ◌%◌, ◌≤◌, ◌≡◌, ◌≢◌, ◌⊎◌, none, some, [], ◌∷◌, ◌++◌, arith,
}

abbrev table : Subscriptions
table =
    record { topic_filter = "a/#"; options = 1 } ∷ record { topic_filter = "b"; options = 2 } ∷ []

table-IsRestorable : IsRestorable toy mqtt3 table
unfolding lookup
table-IsRestorable = record {
  distinct = (refl, (refl, tt));
  options = ((at_least_once, refl), ((exactly_once, refl), tt));
}

abbrev resubscription : MqttPacket
resubscription = v3 (PacketV3.subscribe 9 (("b", at_most_once) ∷ ("c", exactly_once) ∷ []))

resubscribe_packet-restores_example :
    ((table ≡ []) × (resubscribe_packet toy table mqtt3 ≡ none))
    ⊎ ((p : MqttPacket) × (resubscribe_packet toy table mqtt3 ≡ some p) × (track toy [] p ≡ table))
resubscribe_packet-restores_example =
    resubscribe_packet-restores toy toy_numbers mqtt3 table table-IsRestorable

lookup-track_example :
    lookup (track toy table resubscription) "b"
    ≡ granted (request toy resubscription) "b" (lookup table "b")
lookup-track_example = lookup-track toy table resubscription "b"

-- An MQTT 3.1.1 CONNECT with its clean bit set and a keepalive of 60 s.
abbrev name : Bytes
name = 77 ∷ 81 ∷ 84 ∷ 84 ∷ []

force_session_resumption_lem_example :
    (patched : ℕ) × (force_session_resumption
        (before_flags 16 (12 ∷ []) 0 4 name 4 ++ 2 ∷ (0 ∷ 60 ∷ 0 ∷ 0 ∷ []))
      ≡ ok (before_flags 16 (12 ∷ []) 0 4 name 4 ++ patched ∷ (0 ∷ 60 ∷ 0 ∷ 0 ∷ [])))
    × (patched / 2 % 2 ≡ 0)
    × (patched / 4 ≡ 2 / 4)
    × (patched % 2 ≡ 2 % 2)
force_session_resumption_lem_example =
    force_session_resumption_lem 16 (12 ∷ []) 0 4 name 4 2 (0 ∷ 60 ∷ 0 ∷ 0 ∷ []) refl refl
      (omega arith)

abbrev fresh : Conn (Unit {0})
fresh = record { codec = tt; read_buf = []; sent = []; room = 8 }

abbrev shaken : Handshake
shaken = record { version = mqtt3; connect_raw = 60 ∷ 5 ∷ []; keep_alive = 60 }

abbrev first : Next (Unit {0})
first = next_packet (version_packet mqtt3) tt []

abbrev second : Next (Unit {0})
second = next_packet (v3 (PacketV3.connect (record { keep_alive = 60; rest = 5 ∷ [] }))) tt []

handshake_run : handshake connects fresh first second ≡ ok (fresh, shaken)
unfolding handshake
handshake_run = refl

from_snapshot_version-handshake_example :
    from_snapshot_version connects (version_byte shaken) shaken.connect_raw ≡ ok shaken
from_snapshot_version-handshake_example =
    from_snapshot_version-handshake connects connects_decodes fresh first second handshake_run

client_deadline_bounds_example :
    (◌≢◌ {A = ℕ} 60 0 → 2 * (client_deadline 60 1000 - 1000) ≡ 3 * from_secs 60)
    × (◌≡◌ {A = ℕ} 60 0 → client_deadline 60 1000 ≡ 1000 + from_secs 31536000)
    × (1000 + from_millis 1500 ≤ client_deadline 60 1000)
client_deadline_bounds_example = client_deadline_bounds 60 1000
