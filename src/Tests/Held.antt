-- ===== src/Tests/Held.antt =====
-- Tests of what the loop of src/session/forward.rs holds on to: a publish from each side, an answer to
-- another one, an outage, a refused freeze and a replay.
use traffic_director.Session.Loop.Repeated.{HasRepeated, forward_loop-HasRepeated}
use traffic_director.Session.Loop.Subscribed.{forward_loop-granted_all, granted_all, client_packets}
use traffic_director.Session.Subscriptions.Table.{lookup}
use traffic_director.Session.Connected.{continues}
use traffic_director.Tests.Toy.{toy, toy_headers}
use traffic_director.Tests.Replays.{connack, suback}
use traffic_director.Tests.Forwards.{publish_seven, conn}
use traffic_director.Exec.Post.{Post}
use traffic_director.Session.Freeze.{refused}
use traffic_director.Session.Conn.{next_packet, next_none}
use traffic_director.Session.Loop.{
  Event, client_yields, broker_yields, freezes, wait_ends, forward_loop, turn,
}
use traffic_director.Codec.{at_least_once, PacketV3, MqttPacket, v3, mqtt3}
use traffic_director.Prelude.{refl, some, List, [], ◌∷◌, arith, ◌≡◌, none}
use traffic_director.Session.Loop.Upstream.{Owed, forward_loop-Owed}
use traffic_director.Session.Loop.Downstream.{Undelivered, forward_loop-Undelivered}
use traffic_director.Session.Kept.{HasAfter}
use traffic_director.Tests.Loops.{up, up-IsLive}

abbrev ack_eight : MqttPacket
ack_eight = v3 (PacketV3.publish_ack 8)

abbrev later : List (Event (Unit {0}))
later =
    broker_yields (next_packet ack_eight tt [])
    ∷ broker_yields (next_none tt [])
    ∷ client_yields 6 (next_packet publish_seven tt [])
    ∷ freezes refused
    ∷ wait_ends (some conn) connack suback
    ∷ []

forward_loop-Owed_example :
    Post
      (HasAfter (Owed 7))
      (forward_loop toy 1 9 (client_yields 5 (next_packet publish_seven tt []) ∷ later) up)
forward_loop-Owed_example =
    forward_loop-Owed toy 7 toy_headers 1 9 5 publish_seven at_least_once tt [] later up refl refl
      (((λ e. ground arith), (λ e. cc)), (tt, (tt, (tt, (tt, tt)))))

abbrev answered : List (Event (Unit {0}))
answered =
    client_yields 6 (next_packet ack_eight tt [])
    ∷ broker_yields (next_none tt [])
    ∷ freezes refused
    ∷ wait_ends (some conn) connack suback
    ∷ []

forward_loop-Undelivered_example :
    Post
      (HasAfter (Undelivered 7))
      (forward_loop toy 1 9 (broker_yields (next_packet publish_seven tt []) ∷ answered) up)
forward_loop-Undelivered_example =
    forward_loop-Undelivered toy 7 1 9 conn publish_seven at_least_once tt [] answered up refl refl
      refl (((λ e. ground arith), (λ e. cc)), (tt, (tt, (tt, tt))))

abbrev subscribes_b : MqttPacket
subscribes_b = v3 (PacketV3.subscribe 3 (("b", at_least_once) ∷ []))

abbrev table_events : List (Event (Unit {0}))
table_events =
    client_yields 5 (next_packet (v3 (PacketV3.unsubscribe 2 ("a" ∷ []))) tt [])
    ∷ broker_yields (next_none tt [])
    ∷ client_yields 6 (next_packet subscribes_b tt [])
    ∷ wait_ends (some conn) connack suback
    ∷ []

forward_loop-granted_all_example :
    Post
      (λ f l'.
        f ≡ continues
        → lookup l'.session.subscriptions "b"
          ≡ granted_all toy (client_packets table_events) "b" (lookup up.session.subscriptions "b"))
      (forward_loop toy 1 9 table_events up)
forward_loop-granted_all_example = forward_loop-granted_all toy 1 9 table_events up "b"

abbrev lost : List (Event (Unit {0}))
lost = broker_yields (next_packet ack_eight tt []) ∷ broker_yields (next_none tt []) ∷ []

forward_loop-HasRepeated_example :
    Post
      (λ f l₁.
        l₁.session.broker ≡ none
        → Post (HasRepeated 7 l₁) (turn toy 1 9 (wait_ends (some conn) connack suback) l₁))
      (forward_loop toy 1 9 (client_yields 5 (next_packet publish_seven tt []) ∷ lost) up)
forward_loop-HasRepeated_example =
    forward_loop-HasRepeated toy 1 9 7 toy_headers mqtt3 5 publish_seven at_least_once tt [] lost up
      (some conn) connack suback refl refl up-IsLive (tt, (tt, (tt, tt)))
      (((λ e. ground arith), (λ e. cc)), (tt, tt))
